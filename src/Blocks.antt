-- ===== src/Blocks.antt =====
-- The maintainers' brake (worker/src/routes/blocks.ts).
pub mod Contributors
pub mod Packages
pub mod People
