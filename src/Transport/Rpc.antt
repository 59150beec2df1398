-- ===== src/Transport/Rpc.antt =====
-- api/internal/transport/rpc.go: the request, response and push envelopes, encoded and decoded.
pub mod Key
pub mod RoundTrip
pub mod Versions
pub mod Serve
use tinku.Prelude.{
  ℕ, zero, suc, List, [], ◌∷◌, ◌++◌, Option, none, some, Bool, if◌then◌else◌, or_else,
}
use tinku.Prelude.Int.{ℤ}
use tinku.Transport.Cbor.Value.{Value, uint, int, text}
use tinku.Transport.Cbor.Encode.{encode_value, write_head}
use tinku.Transport.Cbor.Decode.{decode_envelope}
use tinku.Transport.Cbor.Canon.{Entry, canon_map, sort, insert, less, to_entries}
use tinku.Transport.Rpc.Key
use tinku.Transport.Conventions.{
  Bytes, Status, Wire, ok, err, ◌>>=◌, ◌>>◌, of_outcome, malformed, missing_payload, not_tagged,
  status_error, version, is_ok, name, tag24, untag24, map_get, get_uint, get_int, get_text,
  get_text_opt, get_uint_opt, check_version, status_ok,
}

pub record RpcRequest : Type 0 where
  pub service : Bytes
  pub op : Bytes
  pub id : Option ℕ
  pub payload : Bytes
  pub auth : Option Bytes

pub record RpcResponse : Type 0 where
  pub id : Option ℕ
  pub status : Status
  pub variant : Option Bytes
  pub error : Option Bytes
  pub payload : Bytes

pub record RpcPush : Type 0 where
  pub service : Bytes
  pub event : Bytes
  pub payload : Bytes

-- `if p != nil { entries = append(entries, …) }`.
abbrev pub uint_field : Bytes → Option ℕ → List Entry
uint_field key none = []
uint_field key (some n) = (text key, uint n) ∷ []

abbrev pub text_field : Bytes → Option Bytes → List Entry
text_field key none = []
text_field key (some t) = (text key, text t) ∷ []

unfoldable pub new_rpc_request : Bytes → Bytes → Bytes → RpcRequest
new_rpc_request service op payload = record {
  service = service;
  op = op;
  id = none;
  payload = payload;
  auth = none;
}

unfoldable pub request_value : RpcRequest → Value
unfolding canon_map sort insert less to_entries encode_value write_head tag24
request_value r = canon_map (
    (text Key.v, uint version)
    ∷ (text Key.service, text r.service)
    ∷ (text Key.op, text r.op)
    ∷ (text Key.payload, tag24 r.payload)
    ∷ (uint_field Key.id r.id ++ text_field Key.auth r.auth))

unfoldable pub encode_request : RpcRequest → Bytes
encode_request r = encode_value (request_value r)

unfoldable pub response_value : RpcResponse → Value
unfolding canon_map sort insert less to_entries encode_value write_head tag24
response_value r = canon_map (
    (text Key.v, uint version)
    ∷ (text Key.status, int r.status.code)
    ∷ (text Key.payload, tag24 r.payload)
    ∷ (uint_field Key.id r.id ++ text_field Key.variant r.variant ++ text_field Key.error r.error))

unfoldable pub encode_response : RpcResponse → Bytes
encode_response r = encode_value (response_value r)

unfoldable pub push_value : RpcPush → Value
unfolding canon_map sort insert less to_entries encode_value write_head tag24
push_value p = canon_map (
    (text Key.v, uint version)
    ∷ (text Key.service, text p.service)
    ∷ (text Key.event, text p.event)
    ∷ (text Key.payload, tag24 p.payload)
    ∷ [])

unfoldable pub encode_push : RpcPush → Bytes
encode_push p = encode_value (push_value p)

abbrev payload_of : Option Value → Wire Bytes
payload_of none = err (malformed missing_payload)
payload_of (some p) = untag24 p

abbrev payload_or_empty : Option Value → Wire Bytes
payload_or_empty none = ok []
payload_or_empty (some p) = untag24 p

-- What each decoder reads off the decoded item.
unfoldable pub request_of : Value → Wire RpcRequest
unfolding untag24 map_get get_uint get_int get_text get_text_opt get_uint_opt check_version
request_of v = do
  ver ← get_uint v Key.v
  check_version ver
  payload ← payload_of (map_get v Key.payload)
  service ← get_text v Key.service
  op ← get_text v Key.op
  ok (record {
    service = service;
    op = op;
    id = get_uint_opt v Key.id;
    payload = payload;
    auth = get_text_opt v Key.auth;
  })

unfoldable pub response_of : Value → Wire RpcResponse
unfolding untag24 map_get get_uint get_int get_text get_text_opt get_uint_opt check_version
response_of v = do
  ver ← get_uint v Key.v
  check_version ver
  payload ← payload_or_empty (map_get v Key.payload)
  status ← get_int v Key.status
  ok (record {
    id = get_uint_opt v Key.id;
    status = record { code = status };
    variant = get_text_opt v Key.variant;
    error = get_text_opt v Key.error;
    payload = payload;
  })

unfoldable pub push_of : Value → Wire RpcPush
unfolding untag24 map_get get_uint get_int get_text get_text_opt get_uint_opt check_version
push_of v = do
  ver ← get_uint v Key.v
  check_version ver
  payload ← payload_of (map_get v Key.payload)
  service ← get_text v Key.service
  event ← get_text v Key.event
  ok (record { service = service; event = event; payload = payload })

-- `alloc_limit` is the decoder's.
module _ (alloc_limit : ℕ) where
  unfoldable pub decode_rpc_request : Bytes → Wire RpcRequest
  decode_rpc_request b = of_outcome (decode_envelope alloc_limit b) >>= λ r. request_of r.0

  unfoldable pub decode_rpc_response : Bytes → Wire RpcResponse
  decode_rpc_response b = of_outcome (decode_envelope alloc_limit b) >>= λ r. response_of r.0

  unfoldable pub decode_rpc_push : Bytes → Wire RpcPush
  decode_rpc_push b = of_outcome (decode_envelope alloc_limit b) >>= λ r. push_of r.0

unfoldable pub new_rpc_response_ok : Bytes → Bytes → RpcResponse
new_rpc_response_ok variant payload = record {
  id = none;
  status = status_ok;
  variant = some variant;
  error = none;
  payload = payload;
}

unfoldable pub new_rpc_response_transport_error : Status → Bytes → RpcResponse
new_rpc_response_transport_error status message = record {
  id = none;
  status = status;
  variant = none;
  error = some message;
  payload = [];
}

abbrev pub with_id : Option ℕ → RpcResponse → RpcResponse
with_id id r = record r { id = id }

unfoldable pub as_transport_error : RpcResponse → Wire (Unit {0})
as_transport_error r =
    if is_ok r.status
    then ok tt
    else err (status_error (name r.status) r.status.code (or_else r.error []))
