-- ===== src/Handler/State.antt =====
-- ext/prosody/src/handler/state: native handles of keyed state.
pub mod Kinds
pub mod Query
pub mod Handles
pub mod Cursor
pub mod Map
pub mod Set
pub mod Deque
