-- ===== src/Endpoints.antt =====
-- script.go, materialized_table.go and the single requests of session.go.
pub mod Submit
pub mod Deploy
pub mod SessionCalls
mod Outcome
mod Examples
