-- ===== src/Persistence.antt =====
-- internal/persistence.
pub mod Refill
pub mod Disk
pub mod Aof
pub mod Rdb
pub mod Replay
pub mod Json
pub mod Manager
pub mod AutoSave
pub mod Lifecycle
