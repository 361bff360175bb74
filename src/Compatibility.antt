-- ===== src/Compatibility.antt =====
-- flinksqlgateway/compatibility.go, and the version functions of config.go and client.go.
pub mod Profile
pub mod Version
pub mod Selection
pub mod Choice
pub mod Check
pub mod Contract
mod Examples
