-- ===== src/Context.antt =====
-- talisker/context.py: the stacked logging data of a request, the contexts of the process and the
-- operations of the global `Context`.
pub mod Stack
pub mod Data
pub mod Api
mod Tests
