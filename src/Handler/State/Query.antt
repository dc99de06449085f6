-- ===== src/Handler/State/Query.antt =====
-- ext/prosody/src/handler/state/query.rs: Ruby query keywords become core query settings. A core
-- query is the list of the calls that build it, in order. The keyword hash is a list of symbol
-- names with their values, and Ruby's conversion of a value to a `String` is a parameter.
mod Keywords
mod Build
mod Tests
pub mod Slots
pub mod Ranges
pub mod Calls
pub use Keywords.*
unfoldable pub use Build.*
