-- ===== src/Factory.antt =====
-- The factory's queue (worker/src/routes/factory.ts).
pub mod Rows
pub mod Tests
pub mod Workers
pub mod Reply
pub mod Chains
pub mod Journal
pub mod Enqueue
pub mod Claim
pub mod Record
pub mod Lease
pub mod Complete
pub mod Queue
pub mod Rules
