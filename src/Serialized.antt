-- ===== src/Serialized.antt =====
-- flinksqlgateway/activity.go and serialized_session.go: one execution of a session at a time.
pub mod Activity
pub mod Gate
pub mod Exclusion
mod Examples
