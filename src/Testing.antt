-- ===== src/Testing.antt =====
-- The helpers for tests of talisker/testing.py.
pub mod Records
pub mod Parse
pub mod Process
mod Tests
