-- ===== src/Examples.antt =====
-- Runs at concrete inputs.
mod World
mod Codec
mod Services
mod Tables
pub mod Rpc
mod Recurrence
mod Series
mod Federation
