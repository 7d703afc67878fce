-- ===== src/Classify.antt =====
-- The five kinds of work and the grouping of findings (hardening_loop/classify/).
pub mod Rules
pub mod Kinds
pub mod Group
pub mod Grouping
