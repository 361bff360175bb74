-- ===== src/Session.antt =====
-- flinksqlgateway/session.go: opening and closing sessions, and the handles that are remembered.
pub mod Handle
pub mod State
pub mod Cache
pub mod Contract
pub mod Flight
mod Examples
