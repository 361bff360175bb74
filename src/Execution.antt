-- ===== src/Execution.antt =====
-- flinksqlgateway/operation.go and poller.go: a statement from its submission to the end of its operation.
pub mod Statement
pub mod Operation
pub mod Run
pub mod Outcome
pub mod Cleaning
mod Examples
