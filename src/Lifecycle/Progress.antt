-- ===== src/Lifecycle/Progress.antt =====
-- Where the work item machine stops and where it can always go on
-- (hardening_loop/orchestrator/state.py).
use superset_hardening_loop.Prelude.{◌≤◌, ◌≡◌, refl, ◌≢◌, ◌↔◌, true, false, List, [], ◌∷◌, arith}
use superset_hardening_loop.Prelude.Lists.{length}
use superset_hardening_loop.Domain.WorkItemState.{WorkItemState, in_terminal}
use superset_hardening_loop.Lifecycle.WorkItem.{WorkItemEvent, Transition, next_work_item_state}
use superset_hardening_loop.Lifecycle.HumanGate.{Run, here, step}

terminal_rejects :
    (s : WorkItemState) (e : WorkItemEvent)
    → in_terminal s ≡ true
    → next_work_item_state s e ≡ Transition.invalid_transition s e
unfolding next_work_item_state
terminal_rejects s e h = ground arith

-- An event out of a state that is not terminal.
abbrev exit_event : WorkItemState → WorkItemEvent
exit_event WorkItemState.queued = WorkItemEvent.issue_created
exit_event WorkItemState.issue_open = WorkItemEvent.dispatch_started
exit_event WorkItemState.merged = WorkItemEvent.rescan_started
exit_event WorkItemState.awaiting_rescan = WorkItemEvent.rescan_verified
exit_event WorkItemState.needs_human = WorkItemEvent.human_retry
exit_event WorkItemState.failed = WorkItemEvent.human_retry
exit_event _ = WorkItemEvent.blocked

exit_moves :
    (s : WorkItemState)
    → in_terminal s ≡ false
    → next_work_item_state s (exit_event s) ≢ Transition.invalid_transition s (exit_event s)
unfolding next_work_item_state
exit_moves s h = ground arith

-- The terminal states are exactly those that reject every event.
pub terminal_iff_stuck :
    (s : WorkItemState)
    → (in_terminal s ≡ true)
      ↔ ((e : WorkItemEvent) → next_work_item_state s e ≡ Transition.invalid_transition s e)
terminal_iff_stuck s =
    (λ h e. terminal_rejects s e h, λ stuck. ground (arith, exit_moves s, stuck (exit_event s)))

-- The run from each state to `verified`, by way of a human.
abbrev pub way_to_verified : WorkItemState → List WorkItemEvent
way_to_verified WorkItemState.verified = []
way_to_verified WorkItemState.awaiting_rescan = WorkItemEvent.rescan_verified ∷ []
way_to_verified WorkItemState.merged =
    WorkItemEvent.rescan_started ∷ WorkItemEvent.rescan_verified ∷ []
way_to_verified WorkItemState.needs_human =
    WorkItemEvent.human_merged ∷ WorkItemEvent.rescan_started ∷ WorkItemEvent.rescan_verified ∷ []
way_to_verified WorkItemState.queued =
    WorkItemEvent.issue_created ∷ WorkItemEvent.blocked ∷ WorkItemEvent.human_merged
    ∷ WorkItemEvent.rescan_started ∷ WorkItemEvent.rescan_verified ∷ []
way_to_verified WorkItemState.failed =
    WorkItemEvent.human_retry ∷ WorkItemEvent.blocked ∷ WorkItemEvent.human_merged
    ∷ WorkItemEvent.rescan_started ∷ WorkItemEvent.rescan_verified ∷ []
way_to_verified _ =
    WorkItemEvent.blocked ∷ WorkItemEvent.human_merged ∷ WorkItemEvent.rescan_started
    ∷ WorkItemEvent.rescan_verified ∷ []

from_merged : Run WorkItemState.merged (way_to_verified WorkItemState.merged) WorkItemState.verified
unfolding next_work_item_state
from_merged = step WorkItemEvent.rescan_started refl (step WorkItemEvent.rescan_verified refl here)

from_needs_human :
    Run WorkItemState.needs_human (way_to_verified WorkItemState.needs_human) WorkItemState.verified
unfolding next_work_item_state
from_needs_human = step WorkItemEvent.human_merged refl from_merged

from_issue_open :
    Run WorkItemState.issue_open (way_to_verified WorkItemState.issue_open) WorkItemState.verified
unfolding next_work_item_state
from_issue_open = step WorkItemEvent.blocked refl from_needs_human

way_runs :
    (s : WorkItemState)
    → s ≢ WorkItemState.abandoned
    → Run s (way_to_verified s) WorkItemState.verified
unfolding next_work_item_state
way_runs WorkItemState.abandoned h = absurd (h refl)
way_runs WorkItemState.verified h = here
way_runs WorkItemState.awaiting_rescan h = step WorkItemEvent.rescan_verified refl here
way_runs WorkItemState.merged h = from_merged
way_runs WorkItemState.needs_human h = from_needs_human
way_runs WorkItemState.queued h = step WorkItemEvent.issue_created refl from_issue_open
way_runs WorkItemState.failed h = step WorkItemEvent.human_retry refl from_issue_open
way_runs _ h = step WorkItemEvent.blocked refl from_needs_human

-- From every state but `abandoned` some run of at most five events ends verified.
pub verified_reachable :
    (s : WorkItemState)
    → s ≢ WorkItemState.abandoned
    → (es : List WorkItemEvent) × Run s es WorkItemState.verified × (length es ≤ 5)
verified_reachable s h = (way_to_verified s, way_runs s h, ground arith)
