-- ===== src/Core.antt =====
-- crates/ussl-core
pub mod Error
pub mod Path
pub mod Value
pub mod Strategy
pub mod Document
pub mod Manager
