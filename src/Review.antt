-- ===== src/Review.antt =====
-- What maintainers do with staged builds (worker/src/routes/review.ts).
pub mod Decide
pub mod Approve
pub mod Approval
pub mod Rebuild
pub mod Rejection
