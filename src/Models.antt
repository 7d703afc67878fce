-- ===== src/Models.antt =====
-- The rows that the controller loads (hardening_loop/models/tables.py) and the constants of
-- hardening_loop/config.py. Times are numbers of microseconds.
pub mod Scan
pub mod Finding
pub mod Config
