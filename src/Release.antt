-- ===== src/Release.antt =====
-- Releases of the rings: worker/src/routes/releases.ts and worker/src/db.ts.
pub mod Selection
pub mod Rows
pub mod Members
pub mod Replay
pub mod Checkpoint
pub mod Create
pub mod Write
pub mod Delta
pub mod History
pub mod Served
pub mod Plan
pub mod Trace
pub mod Reach
pub mod Promote
pub mod Retention
pub mod Kept
pub mod Prune
pub mod Line
pub mod Readable
pub mod Cuts
pub mod Promise
