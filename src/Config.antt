-- ===== src/Config.antt =====
-- talisker/config.py: the configuration object, its cached properties and how it is loaded.
pub mod Values
pub mod Property
pub mod Load
mod Tests
