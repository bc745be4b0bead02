-- ===== src/Core/Manager.antt =====
-- crates/ussl-core/src/manager.rs
pub mod Glob
pub mod State
pub mod Backup
pub mod Lifecycle
pub mod Presences
pub mod Collection
pub mod Remaining
pub mod Restored
pub mod Invariant
