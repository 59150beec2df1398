-- ===== src/Transport.antt =====
-- api/internal/transport: the wire layer.
pub mod Cbor
pub mod Conventions
pub mod Io
pub mod Carrier
pub mod Rpc
