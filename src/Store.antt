-- ===== src/Store.antt =====
-- internal/store: the embedded SQLite persistence, as tables that the operations read and rewrite.
pub mod Conflict
pub mod Envelope
pub mod Db
pub mod Upsert
pub mod Since
pub mod KeyMap
pub mod Ranks
pub mod Origin
pub mod Migrate
pub mod Pools
