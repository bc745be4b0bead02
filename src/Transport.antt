-- ===== src/Transport.antt =====
-- crates/ussl-transport
pub mod RateLimit
pub mod Handler
pub mod Connection
pub mod Tcp
pub mod WebSocket
pub mod Closed
pub mod Written
pub mod Accept
pub mod Metrics
pub mod Tls
pub mod Servers
