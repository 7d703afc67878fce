-- ===== src/Devin.antt =====
-- Devin session snapshots (hardening_loop/devin/enums.py).
pub mod Status
pub mod Snapshot
