-- ===== src/Store/Sqlite.antt =====
-- api/internal/store/sqlite: statements on tables, as functions on lists of rows in the order of
-- insertion. New ids and the clock are arguments; the database itself does not fail.
pub mod Offers
pub mod Rosters
pub mod Series
