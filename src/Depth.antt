-- ===== src/Depth.antt =====
-- The verification ladder (hardening_loop/verification.py) and its enums
-- (hardening_loop/domain/enums.py).
pub mod Ladder
pub mod Evaluate
pub mod Laws
pub mod Claims
