-- ===== src/Lifecycle/WorkItem.antt =====
-- `WorkItemEvent`, `WORK_ITEM_TRANSITIONS` and `next_work_item_state`
-- (hardening_loop/orchestrator/state.py).
use superset_hardening_loop.Prelude.{String, Option, none, some}
use superset_hardening_loop.Domain.WorkItemState.{WorkItemState}

pub data WorkItemEvent : Type 0 where
  dispatch_approved issue_created dispatch_started session_created : WorkItemEvent
  session_adopted dispatch_failed pr_opened checks_started checks_green : WorkItemEvent
  checks_red retry_sent retries_exhausted new_head_pushed review_completed : WorkItemEvent
  review_not_observed human_merged pr_closed_unmerged rescan_started : WorkItemEvent
  rescan_verified rescan_shows_present blocked human_retry operator_cancelled : WorkItemEvent
  human_abandoned human_resolved superseded : WorkItemEvent

abbrev pub event_value : WorkItemEvent → String
event_value WorkItemEvent.dispatch_approved = "dispatch_approved"
event_value WorkItemEvent.issue_created = "issue_created"
event_value WorkItemEvent.dispatch_started = "dispatch_started"
event_value WorkItemEvent.session_created = "session_created"
event_value WorkItemEvent.session_adopted = "session_adopted"
event_value WorkItemEvent.dispatch_failed = "dispatch_failed"
event_value WorkItemEvent.pr_opened = "pr_opened"
event_value WorkItemEvent.checks_started = "checks_started"
event_value WorkItemEvent.checks_green = "checks_green"
event_value WorkItemEvent.checks_red = "checks_red"
event_value WorkItemEvent.retry_sent = "retry_sent"
event_value WorkItemEvent.retries_exhausted = "retries_exhausted"
event_value WorkItemEvent.new_head_pushed = "new_head_pushed"
event_value WorkItemEvent.review_completed = "review_completed"
event_value WorkItemEvent.review_not_observed = "review_not_observed"
event_value WorkItemEvent.human_merged = "human_merged"
event_value WorkItemEvent.pr_closed_unmerged = "pr_closed_unmerged"
event_value WorkItemEvent.rescan_started = "rescan_started"
event_value WorkItemEvent.rescan_verified = "rescan_verified"
event_value WorkItemEvent.rescan_shows_present = "rescan_shows_present"
event_value WorkItemEvent.blocked = "blocked"
event_value WorkItemEvent.human_retry = "human_retry"
event_value WorkItemEvent.operator_cancelled = "operator_cancelled"
event_value WorkItemEvent.human_abandoned = "human_abandoned"
event_value WorkItemEvent.human_resolved = "human_resolved"
event_value WorkItemEvent.superseded = "superseded"

-- `WORK_ITEM_TRANSITIONS.get((state, event))`; `none` is a missing key.
unfoldable pub work_item_transitions : WorkItemState → WorkItemEvent → Option WorkItemState
work_item_transitions WorkItemState.queued WorkItemEvent.dispatch_approved =
    some WorkItemState.queued
work_item_transitions WorkItemState.queued WorkItemEvent.issue_created =
    some WorkItemState.issue_open
work_item_transitions WorkItemState.queued WorkItemEvent.human_abandoned =
    some WorkItemState.abandoned
work_item_transitions WorkItemState.queued WorkItemEvent.superseded = some WorkItemState.abandoned
work_item_transitions WorkItemState.issue_open WorkItemEvent.superseded =
    some WorkItemState.abandoned
work_item_transitions WorkItemState.issue_open WorkItemEvent.dispatch_started =
    some WorkItemState.dispatching
work_item_transitions WorkItemState.issue_open WorkItemEvent.human_abandoned =
    some WorkItemState.abandoned
work_item_transitions WorkItemState.issue_open WorkItemEvent.blocked =
    some WorkItemState.needs_human
work_item_transitions WorkItemState.dispatching WorkItemEvent.session_created =
    some WorkItemState.session_active
work_item_transitions WorkItemState.dispatching WorkItemEvent.session_adopted =
    some WorkItemState.session_active
work_item_transitions WorkItemState.dispatching WorkItemEvent.dispatch_failed =
    some WorkItemState.issue_open
work_item_transitions WorkItemState.dispatching WorkItemEvent.blocked =
    some WorkItemState.needs_human
work_item_transitions WorkItemState.session_active WorkItemEvent.pr_opened =
    some WorkItemState.pr_open
work_item_transitions WorkItemState.session_active WorkItemEvent.blocked =
    some WorkItemState.needs_human
work_item_transitions WorkItemState.session_active WorkItemEvent.operator_cancelled =
    some WorkItemState.needs_human
work_item_transitions WorkItemState.session_active WorkItemEvent.retries_exhausted =
    some WorkItemState.failed
work_item_transitions WorkItemState.pr_open WorkItemEvent.checks_started =
    some WorkItemState.checks_running
work_item_transitions WorkItemState.pr_open WorkItemEvent.blocked = some WorkItemState.needs_human
work_item_transitions WorkItemState.pr_open WorkItemEvent.pr_closed_unmerged =
    some WorkItemState.needs_human
work_item_transitions WorkItemState.checks_running WorkItemEvent.checks_green =
    some WorkItemState.review_pending
work_item_transitions WorkItemState.checks_running WorkItemEvent.checks_red =
    some WorkItemState.checks_failed
work_item_transitions WorkItemState.checks_running WorkItemEvent.blocked =
    some WorkItemState.needs_human
work_item_transitions WorkItemState.checks_running WorkItemEvent.pr_closed_unmerged =
    some WorkItemState.needs_human
work_item_transitions WorkItemState.checks_failed WorkItemEvent.retry_sent =
    some WorkItemState.session_active
work_item_transitions WorkItemState.checks_failed WorkItemEvent.retries_exhausted =
    some WorkItemState.failed
work_item_transitions WorkItemState.checks_failed WorkItemEvent.blocked =
    some WorkItemState.needs_human
work_item_transitions WorkItemState.review_pending WorkItemEvent.review_completed =
    some WorkItemState.ready_for_human
work_item_transitions WorkItemState.review_pending WorkItemEvent.review_not_observed =
    some WorkItemState.needs_human
work_item_transitions WorkItemState.review_pending WorkItemEvent.checks_red =
    some WorkItemState.checks_failed
work_item_transitions WorkItemState.review_pending WorkItemEvent.blocked =
    some WorkItemState.needs_human
work_item_transitions WorkItemState.review_pending WorkItemEvent.pr_closed_unmerged =
    some WorkItemState.needs_human
work_item_transitions WorkItemState.review_pending WorkItemEvent.new_head_pushed =
    some WorkItemState.checks_running
work_item_transitions WorkItemState.ready_for_human WorkItemEvent.human_merged =
    some WorkItemState.merged
work_item_transitions WorkItemState.ready_for_human WorkItemEvent.checks_red =
    some WorkItemState.checks_failed
work_item_transitions WorkItemState.ready_for_human WorkItemEvent.pr_closed_unmerged =
    some WorkItemState.needs_human
work_item_transitions WorkItemState.ready_for_human WorkItemEvent.human_abandoned =
    some WorkItemState.abandoned
work_item_transitions WorkItemState.ready_for_human WorkItemEvent.blocked =
    some WorkItemState.needs_human
work_item_transitions WorkItemState.ready_for_human WorkItemEvent.new_head_pushed =
    some WorkItemState.checks_running
work_item_transitions WorkItemState.merged WorkItemEvent.rescan_started =
    some WorkItemState.awaiting_rescan
work_item_transitions WorkItemState.awaiting_rescan WorkItemEvent.rescan_verified =
    some WorkItemState.verified
work_item_transitions WorkItemState.awaiting_rescan WorkItemEvent.rescan_shows_present =
    some WorkItemState.needs_human
work_item_transitions WorkItemState.awaiting_rescan WorkItemEvent.rescan_started =
    some WorkItemState.awaiting_rescan
work_item_transitions WorkItemState.needs_human WorkItemEvent.human_retry =
    some WorkItemState.issue_open
work_item_transitions WorkItemState.needs_human WorkItemEvent.human_abandoned =
    some WorkItemState.abandoned
work_item_transitions WorkItemState.needs_human WorkItemEvent.human_resolved =
    some WorkItemState.awaiting_rescan
work_item_transitions WorkItemState.needs_human WorkItemEvent.human_merged =
    some WorkItemState.merged
work_item_transitions WorkItemState.failed WorkItemEvent.human_retry = some WorkItemState.issue_open
work_item_transitions WorkItemState.failed WorkItemEvent.human_abandoned =
    some WorkItemState.abandoned
work_item_transitions _ _ = none

-- What a step returns, or the `InvalidTransitionError` that it raises.
pub data Transition (S E : Type 0) : Type 0 where
  moved : S → Transition S E
  invalid_transition : S → E → Transition S E

unfoldable pub next_work_item_state :
    WorkItemState → WorkItemEvent → Transition WorkItemState WorkItemEvent
unfolding work_item_transitions
next_work_item_state state event = elim (work_item_transitions state event) [
  | some after ↦ Transition.moved after
  | none ↦ Transition.invalid_transition state event
]
