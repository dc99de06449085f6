-- ===== src/Client.antt =====
-- ext/prosody/src/client: the Ruby client.
mod Tests
pub mod Config
pub mod Calls
pub mod Request
pub mod Start
pub mod Readers
