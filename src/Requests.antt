-- ===== src/Requests.antt =====
-- The outgoing requests of talisker/requests.py.
pub mod Adapter
pub mod Metadata
pub mod Record
pub mod Session
mod Tests
mod CallTests
