-- ===== src/Store/Keeps.antt =====
-- For each operation of src/store.rs, what it keeps of the tables.
pub mod Phases
pub mod Rules
pub mod Backoff
pub mod Down
pub mod Start
pub mod Up
pub mod Commit
pub mod Cold
pub mod Starting
pub mod Calls
pub mod Recover
