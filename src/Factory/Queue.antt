-- ===== src/Factory/Queue.antt =====
-- What holds of the queue's table between two requests: every id was given once and is below the
-- next one, and every row's lease and attempts fit its status.
pub mod Rows
pub mod Keys
pub mod Requeue
pub mod Operations
pub mod Leases
pub mod Completion
pub mod Trace
pub mod Claims
pub mod Trust
pub mod Orders
pub mod Once
pub mod Supersede
pub mod Ends
