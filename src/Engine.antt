-- ===== src/Engine.antt =====
-- The engine's changes of one work item, of its pull request and of its findings
-- (hardening_loop/orchestrator/engine.py).
pub mod World
pub mod Apply
pub mod Levels
pub mod Checks
pub mod Audit
pub mod Laws
pub mod Approval
pub mod Archive
pub mod Judging
pub mod Closing
pub mod Judged
pub mod Verified
pub mod Settling
pub mod Evidence
pub mod Database
pub mod Regress
pub mod Drift
pub mod Rescan
pub mod Once
pub mod Record
pub mod Review
pub mod Retry
pub mod Follow
pub mod Labels
pub mod Frame
pub mod Messages
pub mod Resolved
pub mod Reviewed
pub mod Steps
pub mod Unready
pub mod Ready
pub mod Retries
pub mod Recorded
