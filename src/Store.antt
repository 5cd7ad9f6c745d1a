-- ===== src/Store.antt =====
-- internal/store: the SQLite database and the operations on it.
pub mod Tables
pub mod Sql
pub mod Ingest
pub mod Continuations
pub mod Sessions
pub mod Events
pub mod Rules
pub mod Watches
pub mod Retention
pub mod OneShot
