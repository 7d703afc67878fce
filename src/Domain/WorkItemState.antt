-- ===== src/Domain/WorkItemState.antt =====
-- `WorkItemState` and the sets of its members that the program tests
-- (hardening_loop/domain/enums.py).
use superset_hardening_loop.Prelude.{String, Bool, true, false}

pub data WorkItemState : Type 0 where
  queued issue_open dispatching session_active pr_open checks_running : WorkItemState
  checks_failed review_pending ready_for_human merged awaiting_rescan : WorkItemState
  verified needs_human abandoned failed : WorkItemState

abbrev pub value : WorkItemState → String
value WorkItemState.queued = "queued"
value WorkItemState.issue_open = "issue_open"
value WorkItemState.dispatching = "dispatching"
value WorkItemState.session_active = "session_active"
value WorkItemState.pr_open = "pr_open"
value WorkItemState.checks_running = "checks_running"
value WorkItemState.checks_failed = "checks_failed"
value WorkItemState.review_pending = "review_pending"
value WorkItemState.ready_for_human = "ready_for_human"
value WorkItemState.merged = "merged"
value WorkItemState.awaiting_rescan = "awaiting_rescan"
value WorkItemState.verified = "verified"
value WorkItemState.needs_human = "needs_human"
value WorkItemState.abandoned = "abandoned"
value WorkItemState.failed = "failed"

-- `ACTIVE_WORK_ITEM_STATES`, as membership.
abbrev pub in_active : WorkItemState → Bool
in_active WorkItemState.dispatching = true
in_active WorkItemState.session_active = true
in_active WorkItemState.pr_open = true
in_active WorkItemState.checks_running = true
in_active WorkItemState.checks_failed = true
in_active WorkItemState.review_pending = true
in_active _ = false

-- `TERMINAL_WORK_ITEM_STATES`, as membership.
abbrev pub in_terminal : WorkItemState → Bool
in_terminal WorkItemState.verified = true
in_terminal WorkItemState.abandoned = true
in_terminal _ = false

-- `HUMAN_ATTENTION_STATES`, as membership (hardening_loop/orchestrator/state.py).
abbrev pub in_human_attention : WorkItemState → Bool
in_human_attention WorkItemState.needs_human = true
in_human_attention WorkItemState.failed = true
in_human_attention _ = false
