-- ===== src/Federation.antt =====
-- api/internal/federation: signing keys, verification, and the sender of queued deliveries.
pub mod Keyring
pub mod Outbox
