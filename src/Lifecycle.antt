-- ===== src/Lifecycle.antt =====
-- The table-driven state machines of work items and findings
-- (hardening_loop/orchestrator/state.py).
pub mod WorkItem
pub mod Finding
pub mod HumanGate
pub mod Progress
pub mod Closure
