-- ===== src/Checks.antt =====
-- Concrete inputs, and the theorems at them.
mod Samples
mod Queue
mod Rules
mod Tokens
mod Releases
mod Town
mod World
mod Review
mod Retention
mod Schedule
