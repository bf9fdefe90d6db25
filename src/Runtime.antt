-- ===== src/Runtime.antt =====
-- The runtime (src/runtime.rs): what becomes of the exit of a child, and when it is restarted.
pub mod Restarts
pub mod Schedule
pub mod Rows
pub mod Steps
pub mod Bounded
pub mod Exits
pub mod Replay
