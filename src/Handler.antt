-- ===== src/Handler.antt =====
-- ext/prosody/src/handler: what a Ruby handler sees of an event, and how it is run.
pub mod Context
pub mod State
pub mod Run
pub mod Messages
