-- ===== src/Client/Config.antt =====
-- ext/prosody/src/client/config: the Ruby configuration becomes the settings of the core's
-- builders. A builder of the core is the list of the settings made on it, in order.
mod Tests
pub mod Sample
pub mod Native
pub mod Core
pub mod Fields
pub mod Connections
pub mod Middleware
pub mod State
pub mod Consumers
pub mod Valid
pub mod Accepted
pub mod Collections
