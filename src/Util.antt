-- ===== src/Util.antt =====
-- talisker/util.py: the header helper, the early logs, the cache of globals and the error fields.
pub mod Headers
pub mod Early
pub mod Globals
pub mod Errors
mod Tests
