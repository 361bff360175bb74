-- ===== src/Config.antt =====
-- config.go: the configuration of a client, its defaults and its checks.
pub mod Fields
pub mod Normalize
pub mod NextResult
mod Origin
mod Positive
mod Address
mod Contract
mod Examples
