-- ===== src/Core/Document.antt =====
-- crates/ussl-core/src/document.rs
pub mod Id
pub mod Meta
pub mod State
pub mod Sync
pub mod Reads
pub mod Writes
pub mod Compaction
