-- ===== src/Token.antt =====
-- Per-job credentials (worker/src/jobtoken.ts).
pub mod Claims
pub mod Scopes
pub mod Base64
pub mod Verify
pub mod RoundTrip
