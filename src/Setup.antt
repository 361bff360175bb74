-- ===== src/Setup.antt =====
-- flinksqlgateway/session_setup.go and session_setup_compile.go: a declared setup of a session.
pub mod Quote
pub mod Plan
pub mod Checks
pub mod Compile
pub mod Numbering
pub mod Shape
pub mod Apply
pub mod Expected
pub mod Outcome
pub mod Completion
pub mod SetupGate
mod SetupExclusion
pub mod Entry
mod GateExamples
mod Examples
