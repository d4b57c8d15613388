-- ===== src/Db.antt =====
-- internal/db: the tables of the bot, and the queries of its repositories.
pub mod Types
pub mod Gorm
pub mod Sql
pub mod Repository
pub mod Config
pub mod Laws
pub mod Memory
pub mod Tests
