-- ===== src/Managed.antt =====
-- flinksqlgateway/heartbeat.go and managed_session.go: the heartbeats of a session, and what they tell of its health.
pub mod Heartbeat
pub mod Health
pub mod Beats
pub mod Told
pub mod Expiry
pub mod Lifecycle
pub mod Closing
mod Examples
