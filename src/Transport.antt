-- ===== src/Transport.antt =====
-- flinksqlgateway/transport.go: one request to the gateway, its retry, and what an error may show.
pub mod Replace
pub mod Message
pub mod Path
pub mod Redaction
pub mod Response
pub mod Request
pub mod Attempts
mod Examples
