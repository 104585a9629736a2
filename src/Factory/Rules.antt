-- ===== src/Factory/Rules.antt =====
-- What single parts of the factory promise.
pub mod Evidence
pub mod Upstream
pub mod Failure
