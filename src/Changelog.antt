-- ===== src/Changelog.antt =====
-- flinksqlgateway/changelog/materializer.go.
pub mod Row
pub mod Key
pub mod State
pub mod View
pub mod Order
pub mod Compaction
pub mod Invariant
pub mod Refinement
pub mod Methods
pub mod Options
pub mod Contract
pub mod History
mod Reached
mod Examples
