-- ===== src/Webhooks.antt =====
-- api/internal/webhooks, and the tables behind it in api/internal/store/sqlite/webhooks.go.
pub mod Change
pub mod Queue
pub mod Sender
pub mod Routing
