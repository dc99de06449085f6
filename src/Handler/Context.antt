-- ===== src/Handler/Context.antt =====
-- ext/prosody/src/handler/context: the Ruby view of an event's context.
mod Tests
pub mod Time
pub mod Timers
pub mod Rounding
pub mod Demand
pub mod Vending
