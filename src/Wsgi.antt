-- ===== src/Wsgi.antt =====
-- talisker/wsgi.py: one request and its response, as TaliskerWSGIRequest and TaliskerMiddleware
-- handle them between the application and the server.
pub mod Types
pub mod Action
pub mod Metadata
pub mod Request
pub mod Middleware
mod Tests
