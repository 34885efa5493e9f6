-- ===== src/Logs.antt =====
-- talisker/logs.py: the merging of structured data into a log record, and the logfmt formatter.
pub mod Record
pub mod Strings
pub mod Formatter
pub mod Format
mod Tests
