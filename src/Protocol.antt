-- ===== src/Protocol.antt =====
-- crates/ussl-protocol
pub mod Command
pub mod Tokenizer
pub mod Json
pub mod Messages
pub mod Arguments
pub mod Options
pub mod Parser
pub mod Response
