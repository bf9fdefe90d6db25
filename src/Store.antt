-- ===== src/Store.antt =====
-- The state database (src/store.rs).
pub mod Tables
pub mod Sql
pub mod Rows
pub mod Phases
pub mod Up
pub mod Begin
pub mod Commit
pub mod Down
pub mod Backoff
pub mod Start
pub mod Cold
pub mod Effect
pub mod Kept
pub mod View
pub mod Statements
pub mod Keeps
pub mod History
pub mod Safe
pub mod Denied
pub mod Busy
pub mod Post
pub mod Committed
pub mod Judged
pub mod Prepared
pub mod Listed
pub mod Reconciled
pub mod Recovery
pub mod Recover
pub mod Views
pub mod Written
