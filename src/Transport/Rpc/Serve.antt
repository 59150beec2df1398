-- ===== src/Transport/Rpc/Serve.antt =====
-- The client and the server of api/internal/transport/rpc.go. The application's state is threaded
-- through the handler; the text of an error is a parameter, since fmt writes it.
pub mod Exchange
use tinku.Prelude.{ℕ, ◌+◌, ◌%◌, ◌^◌, [], ◌∷◌, Bool, true, false, Option, none, some, if◌then◌else◌}
use tinku.Transport.Conventions.{
  Bytes, Status, Wire, WireError, ok, err, panic, carrier, status_malformed_envelope,
}
use tinku.Transport.Io.{Io, pure, lift, ◌>>=◌, ◌>>◌}
use tinku.Transport.Carrier.{FrameCarrier}
use tinku.Transport.Rpc.{
  RpcRequest, RpcResponse, new_rpc_request, encode_request, encode_response, decode_rpc_request,
  decode_rpc_response, new_rpc_response_ok, new_rpc_response_transport_error, with_id,
  as_transport_error,
}

pub record HandlerOutcome : Type 0 where
  pub is_reply : Bool
  pub variant : Bytes
  pub payload : Bytes
  pub status : Status
  pub message : Bytes

-- A connection's client: the id of the next request, and whether requests carry one.
pub record RpcClient : Type 0 where
  pub next_id : ℕ
  pub multiplexed : Bool

unfoldable pub new_rpc_client : Bool → RpcClient
new_rpc_client multiplexed = record { next_id = 1; multiplexed = multiplexed }

abbrev pub closed_before_response : WireError
closed_before_response = carrier (
    b'c' ∷ b'o' ∷ b'n' ∷ b'n' ∷ b'e' ∷ b'c' ∷ b't' ∷ b'i' ∷ b'o' ∷ b'n' ∷ b' ' ∷ b'c' ∷ b'l' ∷ b'o'
    ∷ b's' ∷ b'e' ∷ b'd' ∷ b' ' ∷ b'b' ∷ b'e' ∷ b'f' ∷ b'o' ∷ b'r' ∷ b'e' ∷ b' ' ∷ b'r' ∷ b'e'
    ∷ b's' ∷ b'p' ∷ b'o' ∷ b'n' ∷ b's' ∷ b'e' ∷ [])

unfoldable pub answer_with : Option ℕ → HandlerOutcome → RpcResponse
unfolding new_rpc_response_ok new_rpc_response_transport_error
answer_with id o =
    if o.is_reply
    then with_id id (new_rpc_response_ok o.variant o.payload)
    else with_id id (new_rpc_response_transport_error o.status o.message)

-- The request of a call, and the client after it.
unfoldable pub request_for : RpcClient → Bytes → Bytes → Bytes → Option Bytes → RpcRequest
unfolding new_rpc_request
request_for c service op payload auth =
    let req = record (new_rpc_request service op payload) { auth = auth } in
    if c.multiplexed then record req { id = some c.next_id } else req

unfoldable pub count_call : RpcClient → RpcClient
count_call c = if c.multiplexed then record c { next_id = (c.next_id + 1) % 2 ^ 64 } else c

abbrev expect_frame : Option Bytes → Wire Bytes
expect_frame none = err closed_before_response
expect_frame (some f) = ok f

module _ {S : Type 0} (conn : FrameCarrier S) (alloc_limit : ℕ) where
  abbrev read_reply : Bytes → Io S RpcResponse
  read_reply frame = do
    resp ← lift (decode_rpc_response alloc_limit frame)
    lift (as_transport_error resp)
    pure resp

  abbrev exchange : RpcRequest → Io S RpcResponse
  exchange req = do
    conn.send_frame (encode_request req)
    got ← conn.recv_frame
    frame ← lift (expect_frame got)
    read_reply frame

  unfoldable pub call :
      RpcClient → Bytes → Bytes → Bytes → Option Bytes → S → Wire RpcResponse × RpcClient × S
  call c service op payload auth s =
      let (r, t) = exchange (request_for c service op payload auth) s in (r, count_call c, t)

-- The connection and the application.
module _ {S T : Type 0} (conn : FrameCarrier S) (alloc_limit : ℕ) (message_of : WireError → Bytes)
    (handler : RpcRequest → T → HandlerOutcome × T) where
  -- The response to a frame; the handler runs only for a frame that is a request.
  abbrev respond : Wire RpcRequest → T → Wire RpcResponse × T
  respond (ok req) app = let (o, app') = handler req app in (ok (answer_with req.id o), app')
  respond (err e) app =
      (ok (new_rpc_response_transport_error status_malformed_envelope (message_of e)), app)
  respond panic app = (panic, app)

  unfoldable pub respond_to : Bytes → T → Wire RpcResponse × T
  respond_to frame app = respond (decode_rpc_request alloc_limit frame) app

  abbrev write_response : Wire RpcResponse × T → S → Wire Bool × T × S
  write_response (r, app) s =
      let (w, t) = (do resp ← lift r; conn.send_frame (encode_response resp); pure true) s in
      (w, app, t)

  abbrev serve_frame : Wire (Option Bytes) → T → S → Wire Bool × T × S
  serve_frame (ok none) app s = (ok false, app, s)
  serve_frame (ok (some frame)) app s = write_response (respond_to frame app) s
  serve_frame (err e) app s = (err e, app, s)
  serve_frame panic app s = (panic, app, s)

  unfoldable pub serve_one : T → S → Wire Bool × T × S
  unfolding respond_to
  serve_one app s = let (r, t) = conn.recv_frame s in serve_frame r app t
