-- ===== src/Transport/Rpc/Serve/Exchange.antt =====
-- What a call comes to when a server of the package answers it, and what a server does with any
-- frame.
use tinku.Prelude.{
  ◌⊎◌, Bool-cases, inl, inr, ℕ, ◌≡◌, refl, ap, Bool, true, false, Option, none, some, arith,
  if◌then◌else◌,
}
use tinku.Transport.Conventions.{
  Bytes, Wire, WireError, ok, err, panic, is_ok, name, status_error, status_malformed_envelope,
  status_ok,
}
use tinku.Transport.Io.{lift, pure, continue, ◌>>◌}
use tinku.Transport.Carrier.{FrameCarrier}
use tinku.Transport.Rpc.{
  RpcRequest, RpcResponse, encode_request, encode_response, decode_rpc_request,
  new_rpc_response_transport_error, as_transport_error,
}
use tinku.Transport.Rpc.RoundTrip.{
  RequestFits, ResponseFits, decode_rpc_request-encode_request, decode_rpc_response-encode_response,
}
use tinku.Transport.Rpc.Serve.{
  HandlerOutcome, RpcClient, call, serve_one, respond_to, answer_with, request_for, count_call,
}

Wire-cases :
    {A : Type 0} (w : Wire A)
    → ((a : A) × (w ≡ ok a)) ⊎ ((e : WireError) × (w ≡ err e)) ⊎ (w ≡ panic)
Wire-cases (ok a) = inl (a, refl)
Wire-cases (err e) = inr (inl (e, refl))
Wire-cases panic = inr (inr refl)

module _ {T : Type 0} (limit : ℕ) (message_of : WireError → Bytes)
    (handler : RpcRequest → T → HandlerOutcome × T) where
  -- How a frame is answered: as a request, by the handler's outcome under the request's id, or as
  -- anything else, with the malformed-envelope status, the application's state left alone.
  abbrev pub IsAnswer : Wire RpcRequest → T → RpcResponse → T → Type 0
  IsAnswer (ok req) app resp app' =
      (resp ≡ answer_with req.id (handler req app).0)
      × (resp.id ≡ req.id)
      × (app' ≡ (handler req app).1)
  IsAnswer (err e) app resp app' =
      (resp.status ≡ status_malformed_envelope) × (resp.error ≡ some (message_of e)) × (app' ≡ app)
  IsAnswer panic app resp app' = ⊥

  -- What a client makes of an outcome.
  abbrev pub seen : Option ℕ → HandlerOutcome → Wire RpcResponse
  seen id o =
      if o.is_reply
      then ok (record {
        id = id;
        status = status_ok;
        variant = some o.variant;
        error = none;
        payload = o.payload;
      })
      else err (status_error (name o.status) o.status.code o.message)

  -- What the server reports of the frame that it sent.
  abbrev pub sent : Wire (Unit {0}) → Wire Bool
  sent (ok t) = ok true
  sent (err e) = err e
  sent panic = panic

  sent_lem :
      {R : Type 0} (w : Wire (Unit {0})) (app : T) (u : R)
      → let turn : Wire Bool × R = continue w (λ x. pure true) u in
        let reported : Wire Bool × T × R = (turn.0, app, turn.1) in
        let expected : Wire Bool × T × R = (sent w, app, u) in reported ≡ expected
  sent_lem (ok t) app u = refl
  sent_lem (err e) app u = refl
  sent_lem panic app u = refl

  module _ {R : Type 0} (server : FrameCarrier R) where
    served_request :
        (app : T) (t : R) (frame : Bytes) (req : RpcRequest)
        → (server.recv_frame t).0 ≡ ok (some frame)
        → decode_rpc_request limit frame ≡ ok req
        → let out =
            server.send_frame
              (encode_response (answer_with req.id (handler req app).0))
              (server.recv_frame t).1 in
          serve_one server limit message_of handler app t ≡ (sent out.0, (handler req app).1, out.1)
    unfolding serve_one respond_to
    served_request app t frame req r d =
        let resp : RpcResponse = answer_with req.id (handler req app).0 in
        rw (r, d)
          (sent_lem (server.send_frame (encode_response resp) (server.recv_frame t).1).0
            (handler req app).1
            (server.send_frame (encode_response resp) (server.recv_frame t).1).1)

    served_malformed :
        (app : T) (t : R) (frame : Bytes) (e : WireError)
        → (server.recv_frame t).0 ≡ ok (some frame)
        → decode_rpc_request limit frame ≡ err e
        → let out =
            server.send_frame
              (encode_response
                (new_rpc_response_transport_error status_malformed_envelope (message_of e)))
              (server.recv_frame t).1 in
          serve_one server limit message_of handler app t ≡ (sent out.0, app, out.1)
    unfolding serve_one respond_to
    served_malformed app t frame e r d =
        let resp : RpcResponse =
          new_rpc_response_transport_error status_malformed_envelope (message_of e) in
        rw (r, d)
          (sent_lem (server.send_frame (encode_response resp) (server.recv_frame t).1).0 app
            (server.send_frame (encode_response resp) (server.recv_frame t).1).1)

    -- Over any carrier: a frame that the carrier hands to the server is answered by exactly one frame
    -- given to the carrier, and the turn comes to what the carrier makes of that one, a refusal for
    -- its size included. A request runs the handler once and is answered with the outcome under the
    -- request's own id; anything else is answered with the malformed-envelope status and does not
    -- reach the handler. A frame that makes the decoder panic is answered by nothing.
    pub serve_one_answers :
        (app : T) (t : R) (frame : Bytes)
        → (server.recv_frame t).0 ≡ ok (some frame)
        → ((resp : RpcResponse) × (app' : T) × (serve_one server limit message_of handler app t ≡ (
          sent (server.send_frame (encode_response resp) (server.recv_frame t).1).0,
          app',
          (server.send_frame (encode_response resp) (server.recv_frame t).1).1,
        ))
            × IsAnswer (decode_rpc_request limit frame) app resp app')
          ⊎ (decode_rpc_request limit frame ≡ panic)
            × (serve_one server limit message_of handler app t
                ≡ (panic, app, (server.recv_frame t).1))
    unfolding answer_with serve_one respond_to
    serve_one_answers app t frame r = elim (Wire-cases (decode_rpc_request limit frame)) [
      | inl (req, e) ↦ inl (
        answer_with req.id (handler req app).0,
        (handler req app).1,
        served_request app t frame req r e,
        rw e (refl, ground arith, refl),
      )
      | inr (inl (e, q)) ↦ inl (
        new_rpc_response_transport_error status_malformed_envelope (message_of e),
        app,
        served_malformed app t frame e r q,
        rw q (refl, refl, refl),
      )
      | inr (inr q) ↦ inr (q, rw (r, q) refl)
    ]

    module _ {S : Type 0} (client : FrameCarrier S) where
      finish : RpcResponse → S → Wire RpcResponse × S
      finish r = lift (as_transport_error r) >> pure r

      finish_lem :
          (id : Option ℕ) (o : HandlerOutcome) (s : S)
          → (o.is_reply ≡ false → is_ok o.status ≡ false)
          → finish (answer_with id o) s ≡ (seen id o, s)
      unfolding finish answer_with as_transport_error is_ok
      finish_lem id o s h = elim (Bool-cases o.is_reply) [
        | inl e ↦ rw e refl
        | inr e ↦ rw (e, h e) refl
      ]

      -- Over any two carriers that deliver the two frames of the exchange to each other's end: a call
      -- that a server of the package answers comes to the handler's outcome, its reply under the
      -- call's own id or its status and message as an error, and the handler has run once, on the
      -- client's request. The client has counted the call. The outcome that is no reply has a status
      -- other than ok, and both envelopes fit the machine.
      pub call-serve_one :
          (c : RpcClient) (service op payload : Bytes) (auth : Option Bytes) (app : T)
          (s s' s'' : S) (t t' t'' : R) (req : RpcRequest)
          → request_for c service op payload auth ≡ req
          → RequestFits limit req
          → ResponseFits limit (answer_with req.id (handler req app).0)
          → ((handler req app).0.is_reply ≡ false → is_ok (handler req app).0.status ≡ false)
          → client.send_frame (encode_request req) s ≡ (ok tt, s')
          → server.recv_frame t ≡ (ok (some (encode_request req)), t')
          → server.send_frame (encode_response (answer_with req.id (handler req app).0)) t'
            ≡ (ok tt, t'')
          → client.recv_frame s'
            ≡ (ok (some (encode_response (answer_with req.id (handler req app).0))), s'')
          → (serve_one server limit message_of handler app t ≡ (ok true, (handler req app).1, t''))
            × (call client limit c service op payload auth s
                ≡ (seen req.id (handler req app).0, count_call c, s''))
      unfolding call finish
      call-serve_one c service op payload auth app s s' s'' t t' t'' req m f g h cs sr ss cr = (
        rw
            (
              served_request app t (encode_request req) req (ap (λ x. x.0) sr)
                  (decode_rpc_request-encode_request limit req f),
              sr,
              ss,
            )
            refl,
        rw
            (
              m,
              cs,
              cr,
              decode_rpc_response-encode_response limit (answer_with req.id (handler req app).0) g,
            )
            (ap (λ x. (x.0, count_call c, x.1)) (finish_lem req.id (handler req app).0 s'' h)),
      )
