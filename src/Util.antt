-- ===== src/Util.antt =====
-- ext/prosody/src/util.rs: durations, the fork guard, the set-up of the runtime, and (in `Drop`)
-- values that are shared between threads.
mod Tests
pub mod Samples
pub mod Runtime
pub mod Seconds
pub mod ForkGuard
pub mod Drop
