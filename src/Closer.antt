-- ===== src/Closer.antt =====
-- When a scan run may close a finding, and with which outcome
-- (hardening_loop/orchestrator/closer.py).
pub mod Validity
pub mod Decide
pub mod Absence
pub mod Outcome
pub mod Disposition
