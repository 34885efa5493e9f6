-- ===== src/Gunicorn.antt =====
-- talisker/gunicorn.py: the arbiter's queue of dead workers and the exit of a worker.
pub mod Arbiter
pub mod Exit
mod Tests
