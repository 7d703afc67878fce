-- ===== src/Lifecycle/Finding.antt =====
-- `FindingEvent`, `FINDING_TRANSITIONS` and `next_finding_state`
-- (hardening_loop/orchestrator/state.py).
use superset_hardening_loop.Prelude.{String, Option, none, some}
use superset_hardening_loop.Domain.FindingState.{FindingState}
use superset_hardening_loop.Lifecycle.WorkItem.{Transition}

pub data FindingEvent : Type 0 where
  classified unclassifiable grouped remediation_started pr_merged : FindingEvent
  closing_absent closing_vex disagreement_resolved reappeared : FindingEvent
  human_blocked human_reopened reclassified : FindingEvent

abbrev pub event_value : FindingEvent → String
event_value FindingEvent.classified = "classified"
event_value FindingEvent.unclassifiable = "unclassifiable"
event_value FindingEvent.grouped = "grouped"
event_value FindingEvent.remediation_started = "remediation_started"
event_value FindingEvent.pr_merged = "pr_merged"
event_value FindingEvent.closing_absent = "closing_absent"
event_value FindingEvent.closing_vex = "closing_vex"
event_value FindingEvent.disagreement_resolved = "disagreement_resolved"
event_value FindingEvent.reappeared = "reappeared"
event_value FindingEvent.human_blocked = "human_blocked"
event_value FindingEvent.human_reopened = "human_reopened"
event_value FindingEvent.reclassified = "reclassified"

-- `FINDING_TRANSITIONS.get((state, event))`; `none` is a missing key.
unfoldable pub finding_transitions : FindingState → FindingEvent → Option FindingState
finding_transitions FindingState.opened FindingEvent.classified = some FindingState.opened
finding_transitions FindingState.opened FindingEvent.unclassifiable = some FindingState.unclassified
finding_transitions FindingState.opened FindingEvent.grouped = some FindingState.grouped
finding_transitions FindingState.opened FindingEvent.closing_absent = some FindingState.fixed
finding_transitions FindingState.unclassified FindingEvent.reclassified = some FindingState.opened
finding_transitions FindingState.unclassified FindingEvent.closing_absent = some FindingState.fixed
finding_transitions FindingState.grouped FindingEvent.remediation_started =
    some FindingState.in_remediation
finding_transitions FindingState.grouped FindingEvent.human_blocked =
    some FindingState.human_blocked
finding_transitions FindingState.grouped FindingEvent.closing_absent = some FindingState.fixed
finding_transitions FindingState.in_remediation FindingEvent.pr_merged =
    some FindingState.awaiting_rescan
finding_transitions FindingState.in_remediation FindingEvent.human_blocked =
    some FindingState.human_blocked
finding_transitions FindingState.in_remediation FindingEvent.disagreement_resolved =
    some FindingState.scanner_disagreement_resolved
finding_transitions FindingState.in_remediation FindingEvent.closing_vex =
    some FindingState.approved_disposition
finding_transitions FindingState.in_remediation FindingEvent.closing_absent =
    some FindingState.fixed
finding_transitions FindingState.awaiting_rescan FindingEvent.closing_absent =
    some FindingState.fixed
finding_transitions FindingState.awaiting_rescan FindingEvent.closing_vex =
    some FindingState.approved_disposition
finding_transitions FindingState.awaiting_rescan FindingEvent.human_blocked =
    some FindingState.human_blocked
finding_transitions FindingState.fixed FindingEvent.reappeared = some FindingState.regression
finding_transitions FindingState.approved_disposition FindingEvent.human_reopened =
    some FindingState.opened
finding_transitions FindingState.scanner_disagreement_resolved FindingEvent.human_reopened =
    some FindingState.opened
finding_transitions FindingState.regression FindingEvent.grouped = some FindingState.grouped
finding_transitions FindingState.regression FindingEvent.closing_absent = some FindingState.fixed
finding_transitions FindingState.human_blocked FindingEvent.human_reopened =
    some FindingState.opened
finding_transitions FindingState.human_blocked FindingEvent.closing_absent = some FindingState.fixed
finding_transitions FindingState.human_blocked FindingEvent.closing_vex =
    some FindingState.approved_disposition
finding_transitions FindingState.human_blocked FindingEvent.disagreement_resolved =
    some FindingState.scanner_disagreement_resolved
finding_transitions _ _ = none

unfoldable pub next_finding_state :
    FindingState → FindingEvent → Transition FindingState FindingEvent
unfolding finding_transitions
next_finding_state state event = elim (finding_transitions state event) [
  | some after ↦ Transition.moved after
  | none ↦ Transition.invalid_transition state event
]
