-- ===== src/Values.antt =====
-- flinksqlgateway/decoder.go: the fields of a row as values.
pub mod Types
pub mod Scalar
pub mod Decode
pub mod Shapes
pub mod Rules
pub mod Kinds
pub mod Soundness
pub mod Accessor
mod Examples
