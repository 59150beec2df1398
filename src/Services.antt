-- ===== src/Services.antt =====
-- api/internal/csilservices: the service handlers, their permission model and their rules.
pub mod Errors
pub mod Perms
pub mod Go
pub mod Text
pub mod Convert
pub mod Publish
pub mod Validate
pub mod Events
pub mod Organizations
pub mod Gatherings
pub mod Offers
pub mod Webhooks
pub mod Recurrence
pub mod Series
