-- ===== src/Transport/Cbor.antt =====
-- api/internal/transport/cbor.go: the canonical CBOR codec of the envelopes.
pub mod Value
pub mod Encode
pub mod Decode
pub mod Head
pub mod RoundTrip
pub mod Totality
pub mod Canon
