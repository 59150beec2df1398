-- ===== src/Transport/Rpc/Versions.antt =====
-- Envelopes of another version.
use tinku.Prelude.{ℕ, ◌≡◌, ◌≢◌, arith}
use tinku.Transport.Cbor.Value.{Value}
use tinku.Transport.Conventions.{ok, err, unsupported_version, get_uint, version}
use tinku.Transport.Rpc.{request_of, response_of, push_of}
use tinku.Transport.Rpc.Key

-- An envelope of another version is refused by all three decoders with that version, whatever else
-- it holds.
version_refused :
    (v : Value) (n : ℕ)
    → get_uint v Key.v ≡ ok n
    → n ≢ version
    → (request_of v ≡ err (unsupported_version n))
      × (response_of v ≡ err (unsupported_version n))
      × (push_of v ≡ err (unsupported_version n))
unfolding request_of response_of push_of
version_refused v n h d = (ground arith, ground arith, ground arith)
