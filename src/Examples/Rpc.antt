-- ===== src/Examples/Rpc.antt =====
-- The transport on concrete envelopes.
use tinku.Prelude.{◌⊎◌, ℕ, ◌+◌, ◌≤◌, ◌<◌, ◌≡◌, refl, List, [], ◌∷◌, true, none, some, arith, length}
use tinku.Prelude.Int.{pos, negsuc}
use tinku.Transport.Cbor.Value.{Value, uint, text, map, end, entry}
use tinku.Transport.Conventions.{Bytes, WireError, ok, err, panic, frame_too_large}
use tinku.Transport.Carrier.{Loopback, Stream, stream_carrier, loopback_carrier}
use tinku.Transport.Carrier.Framing.{
  send_all, recv_all, received, fresh, Within, frames_cross, carrier_keeps_limit,
}
use tinku.Transport.Rpc.{
  RpcRequest, RpcResponse, RpcPush, encode_request, encode_response, decode_rpc_request,
}
use tinku.Transport.Rpc.Key
use tinku.Transport.Rpc.Serve.{
  serve_one, HandlerOutcome, RpcClient, call, answer_with, request_for, count_call,
}
use tinku.Transport.Rpc.Serve.Exchange.{sent, seen, IsAnswer, serve_one_answers, call-serve_one}

abbrev request : RpcRequest
request = record { service = 83 ∷ []; op = 79 ∷ []; id = some 7; payload = 1 ∷ 2 ∷ []; auth = none }

abbrev response : RpcResponse
response = record {
  id = some 7;
  status = record { code = negsuc 4 };
  variant = none;
  error = some (120 ∷ []);
  payload = [];
}

abbrev push : RpcPush
push = record { service = 83 ∷ []; event = 69 ∷ []; payload = 1 ∷ [] }

abbrev second_version : Value
second_version = map (entry (text Key.v) (uint 2) end)

abbrev frames : List Bytes
frames = (1 ∷ 2 ∷ []) ∷ [] ∷ (3 ∷ []) ∷ []

frames_cross_example :
    let sent = send_all (stream_carrier 2) frames (fresh []) in
    (sent.0 ≡ ok tt)
    × ((recv_all (stream_carrier 2) 4 (fresh sent.1.output)).0 ≡ ok (received frames))
frames_cross_example = frames_cross 2 frames (omega arith) (ground arith)

abbrev incoming : Stream
incoming = fresh (0 ∷ 0 ∷ 0 ∷ 1 ∷ 9 ∷ [])

abbrev frame : Bytes
frame = 9 ∷ 9 ∷ 9 ∷ []

carrier_keeps_limit_example :
    ((length frame ≤ 2) × (((stream_carrier 2).send_frame frame incoming).0 ≡ ok tt)
      ⊎ (2 < length frame)
        × ((stream_carrier 2).send_frame frame incoming ≡ (err (frame_too_large 3 2), incoming)))
    × Within 2 ((stream_carrier 2).recv_frame incoming).0
carrier_keeps_limit_example = carrier_keeps_limit 2 incoming frame

-- A handler that counts its calls and echoes the payload.
abbrev echo : RpcRequest → ℕ → HandlerOutcome × ℕ
echo r n = (
  record {
    is_reply = true;
    variant = 65 ∷ [];
    payload = r.payload;
    status = record { code = pos 0 };
    message = [];
  },
  n + 1,
)

abbrev message_of : WireError → Bytes
message_of e = 101 ∷ []

-- A connection with nothing on it.
abbrev idle : Loopback
idle = record { outbound = []; inbound = [] }

-- The server's end with one request waiting.
abbrev waiting : Loopback
waiting = record { outbound = []; inbound = encode_request request ∷ [] }

serve_one_answers_example :
    ((resp : RpcResponse) × (app : ℕ) × (serve_one loopback_carrier 1000 message_of echo 5 waiting
        ≡ (
          sent 1000 message_of echo (loopback_carrier.send_frame (encode_response resp) idle).0,
          app,
          (loopback_carrier.send_frame (encode_response resp) idle).1,
        ))
      × IsAnswer 1000 message_of echo (decode_rpc_request 1000 (encode_request request)) 5 resp app)
    ⊎ (decode_rpc_request 1000 (encode_request request) ≡ panic)
      × (serve_one loopback_carrier 1000 message_of echo 5 waiting ≡ (panic, 5, idle))
unfolding loopback_carrier
serve_one_answers_example =
    serve_one_answers 1000 message_of echo loopback_carrier 5 waiting (encode_request request) refl

abbrev client : RpcClient
client = record { next_id = 1; multiplexed = true }

abbrev asked : RpcRequest
asked = record { service = 83 ∷ []; op = 79 ∷ []; id = some 1; payload = 4 ∷ []; auth = none }

-- The answer to it, framed for a client with nothing written yet.
abbrev answer : RpcResponse
answer = answer_with (some 1) (echo asked 5).0

abbrev replied : Loopback
replied = record { outbound = []; inbound = encode_response answer ∷ [] }

call-serve_one_example :
    (serve_one loopback_carrier 1000 message_of echo 5
        (record { outbound = []; inbound = encode_request asked ∷ [] })
      ≡ (
        ok true,
        (echo asked 5).1,
        record { outbound = encode_response answer ∷ []; inbound = [] },
      ))
    × (call loopback_carrier 1000 client (83 ∷ []) (79 ∷ []) (4 ∷ []) none replied ≡ (
      seen 1000 message_of echo (some 1) (echo asked 5).0,
      record { next_id = 2; multiplexed = true },
      record { outbound = encode_request asked ∷ []; inbound = [] },
    ))
unfolding request_for answer_with count_call loopback_carrier
call-serve_one_example =
    call-serve_one 1000 message_of echo loopback_carrier loopback_carrier client (83 ∷ []) (79 ∷ [])
      (4 ∷ []) none 5 replied
      (record { outbound = encode_request asked ∷ []; inbound = encode_response answer ∷ [] })
      (record { outbound = encode_request asked ∷ []; inbound = [] })
      (record { outbound = []; inbound = encode_request asked ∷ [] }) idle
      (record { outbound = encode_response answer ∷ []; inbound = [] }) asked refl (ground arith)
      (ground arith) (λ h. ground arith) refl refl refl refl
