-- ===== src/External.antt =====
-- What the program uses and does not implement, as interfaces: Redis, JSON, the database, tokens.
pub mod Redis
pub mod Json
pub mod Floats
pub mod PgVector
pub mod Numerals
pub mod Sql
pub mod Concrete
