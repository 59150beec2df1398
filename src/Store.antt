-- ===== src/Store.antt =====
-- api/internal/store: the rows, the interface, and tables of its SQLite backend.
pub mod Model
pub mod Series
pub mod Interface
pub mod Sqlite
