-- ===== src/Storage.antt =====
-- crates/ussl-storage
pub mod Memory
pub mod Sql
pub mod Sqlite
pub mod Postgres
