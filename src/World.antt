-- ===== src/World.antt =====
-- The whole pool: what holds of it over any sequence of the components' operations.
pub mod Evolves
pub mod Handlers
pub mod Completions
pub mod Sound
pub mod Reviews
pub mod Jobs
pub mod Sweeps
pub mod Blocked
pub mod Requests
pub mod Vouched
pub mod Trace
pub mod Pool
pub mod Shelf
pub mod Approved
