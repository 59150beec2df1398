-- ===== src/Transport/Rpc/RoundTrip.antt =====
-- Envelopes come back as they were sent.
use tinku.Prelude.{ℕ, ◌^◌, ◌*◌, ◌<◌, ◌≤◌, ◌≡◌, refl, Option, none, some, length, arith}
use tinku.Prelude.Int.{ℤ, pos, negsuc}
use tinku.Transport.Cbor.Value.{int}
use tinku.Transport.Cbor.RoundTrip.{Fits, normal, decode_envelope-encode_value}
use tinku.Transport.Conventions.{Bytes, ok, as_i64}
use tinku.Transport.Rpc.{
  RpcRequest, request_value, encode_request, decode_rpc_request, request_of, RpcResponse,
  response_value, response_of, encode_response, decode_rpc_response, RpcPush, push_value, push_of,
  encode_push, decode_rpc_push,
}

abbrev pub OptionFits {ℓ κ} : {A : Type ℓ} → (A → Type κ) → Option A → Type κ
OptionFits P none = Unit
OptionFits P (some a) = P a

abbrev pub IsTextLength : Bytes → Type 0
IsTextLength s = length s < 2 ^ 63

-- What the machine can hold and allocate again.
pub record RequestFits (limit : ℕ) (r : RpcRequest) : Type 0 where
  pub fields : 6 * 32 ≤ limit
  pub service : IsTextLength r.service
  pub op : IsTextLength r.op
  pub payload : IsTextLength r.payload
  pub payload_limit : length r.payload ≤ limit
  pub id : OptionFits (λ n. n < 2 ^ 64) r.id
  pub auth : OptionFits IsTextLength r.auth

pub record ResponseFits (limit : ℕ) (r : RpcResponse) : Type 0 where
  pub fields : 6 * 32 ≤ limit
  pub status : Fits limit (int r.status.code)
  pub payload : IsTextLength r.payload
  pub payload_limit : length r.payload ≤ limit
  pub id : OptionFits (λ n. n < 2 ^ 64) r.id
  pub variant : OptionFits IsTextLength r.variant
  pub error : OptionFits IsTextLength r.error

pub record PushFits (limit : ℕ) (p : RpcPush) : Type 0 where
  pub fields : 4 * 32 ≤ limit
  pub service : IsTextLength p.service
  pub event : IsTextLength p.event
  pub payload : IsTextLength p.payload
  pub payload_limit : length p.payload ≤ limit

request_back :
    (s o p : Bytes) (id : Option ℕ) (auth : Option Bytes)
    → let r : RpcRequest = record { service = s; op = o; id = id; payload = p; auth = auth } in
      request_of (normal (request_value r)) ≡ ok r
unfolding request_of request_value normal
request_back s o p none none = refl
request_back s o p none (some a) = refl
request_back s o p (some n) none = refl
request_back s o p (some n) (some a) = refl

request_value-Fits :
    (limit : ℕ) (s o p : Bytes) (id : Option ℕ) (auth : Option Bytes)
    → let r : RpcRequest = record { service = s; op = o; id = id; payload = p; auth = auth } in
      RequestFits limit r → Fits limit (request_value r)
unfolding request_value
request_value-Fits limit s o p none none f = ground arith
request_value-Fits limit s o p none (some a) f = ground arith
request_value-Fits limit s o p (some n) none f = ground arith
request_value-Fits limit s o p (some n) (some a) f = ground arith

-- A request that the machine can hold comes back as it was sent, its optional fields included.
pub decode_rpc_request-encode_request :
    (limit : ℕ) (r : RpcRequest)
    → RequestFits limit r
    → decode_rpc_request limit (encode_request r) ≡ ok r
unfolding decode_rpc_request encode_request
decode_rpc_request-encode_request limit r f =
    rw
      (decode_envelope-encode_value limit (request_value r)
        (request_value-Fits limit r.service r.op r.payload r.id r.auth f))
      (request_back r.service r.op r.payload r.id r.auth)

abbrev response : ℤ → Bytes → Option ℕ → Option Bytes → Option Bytes → RpcResponse
response c p id v e = record {
  id = id;
  status = record { code = c };
  variant = v;
  error = e;
  payload = p;
}

code_back : (limit : ℕ) (c : ℤ) → Fits limit (int c) → as_i64 (normal (int c)) ≡ some c
unfolding as_i64 normal
code_back limit (pos n) f = ground arith
code_back limit (negsuc n) f = refl

response_back :
    (limit : ℕ) (c : ℤ) (p : Bytes) (id : Option ℕ) (v e : Option Bytes)
    → Fits limit (int c)
    → response_of (normal (response_value (response c p id v e))) ≡ ok (response c p id v e)
unfolding response_of response_value normal
response_back limit c p none none none f = rw (code_back limit c f)
response_back limit c p none none (some e) f = rw (code_back limit c f)
response_back limit c p none (some v) none f = rw (code_back limit c f)
response_back limit c p none (some v) (some e) f = rw (code_back limit c f)
response_back limit c p (some n) none none f = rw (code_back limit c f)
response_back limit c p (some n) none (some e) f = rw (code_back limit c f)
response_back limit c p (some n) (some v) none f = rw (code_back limit c f)
response_back limit c p (some n) (some v) (some e) f = rw (code_back limit c f)

response_value-Fits :
    (limit : ℕ) (c : ℤ) (p : Bytes) (id : Option ℕ) (v e : Option Bytes)
    → ResponseFits limit (response c p id v e)
    → Fits limit (response_value (response c p id v e))
unfolding response_value
response_value-Fits limit c p none none none f = ground arith
response_value-Fits limit c p none none (some e) f = ground arith
response_value-Fits limit c p none (some v) none f = ground arith
response_value-Fits limit c p none (some v) (some e) f = ground arith
response_value-Fits limit c p (some n) none none f = ground arith
response_value-Fits limit c p (some n) none (some e) f = ground arith
response_value-Fits limit c p (some n) (some v) none f = ground arith
response_value-Fits limit c p (some n) (some v) (some e) f = ground arith

-- A response that the machine can hold comes back as it was sent, its status code whatever it is,
-- and its optional fields included.
pub decode_rpc_response-encode_response :
    (limit : ℕ) (r : RpcResponse)
    → ResponseFits limit r
    → decode_rpc_response limit (encode_response r) ≡ ok r
unfolding decode_rpc_response encode_response
decode_rpc_response-encode_response limit r f =
    rw
      (decode_envelope-encode_value limit (response_value r)
        (response_value-Fits limit r.status.code r.payload r.id r.variant r.error f))
      (response_back limit r.status.code r.payload r.id r.variant r.error f.status)

push_back : (p : RpcPush) → push_of (normal (push_value p)) ≡ ok p
unfolding push_of push_value normal
push_back p = refl

push_value-Fits : (limit : ℕ) (p : RpcPush) → PushFits limit p → Fits limit (push_value p)
unfolding push_value
push_value-Fits limit p f = ground arith

-- A push that the machine can hold comes back as it was sent.
decode_rpc_push-encode_push :
    (limit : ℕ) (p : RpcPush) → PushFits limit p → decode_rpc_push limit (encode_push p) ≡ ok p
unfolding decode_rpc_push encode_push
decode_rpc_push-encode_push limit p f =
    rw (decode_envelope-encode_value limit (push_value p) (push_value-Fits limit p f)) (push_back p)
