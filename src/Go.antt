-- ===== src/Go.antt =====
-- What the source uses of Go's strings, bytes and strconv packages, over bytes.
pub mod Space
pub mod Decimal
pub mod Text
pub mod Utf8
