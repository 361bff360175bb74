-- ===== src/Metadata.antt =====
-- metadata.go: the queries about catalogs, databases, tables, columns and plans.
pub mod Name
pub mod Text
pub mod Query
mod Path
mod Rows
mod Contract
mod Examples
