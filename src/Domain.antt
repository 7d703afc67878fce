-- ===== src/Domain.antt =====
-- The enums shared by the whole controller (hardening_loop/domain/enums.py).
pub mod Severity
pub mod Scanner
pub mod Kind
pub mod WorkItemState
pub mod FindingState
pub mod LifecycleLevel
