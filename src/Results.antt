-- ===== src/Results.antt =====
-- flinksqlgateway/result.go and result_stream.go: the pages of a statement's result, read by a loop or by an iterator.
pub mod Consume
mod Collected
mod Rounds
pub mod Bounds
pub mod Stream
pub mod StreamInvariant
pub mod StreamCalls
pub mod Draining
mod Examples
mod StreamExamples
mod ReaderExamples
mod Reading
mod PageRows
mod Pages
mod Agreement
