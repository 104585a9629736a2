-- ===== src/Schedule.antt =====
-- The pool's scheduler and the jobs that maintainers queue by hand (worker/src/scheduler.ts and
-- worker/src/jobs.ts).
pub mod Rules
pub mod Due
pub mod Queue
pub mod Jobs
pub mod Timing
pub mod Daily
pub mod Guard
pub mod Once
