-- ===== src/Db/Laws.antt =====
-- What the repositories answer, from what SQL promises of their queries.
pub mod Grouping
pub mod Users
pub mod Labels
pub mod Columns
