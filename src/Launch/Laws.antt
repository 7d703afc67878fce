-- ===== src/Launch/Laws.antt =====
-- When an operator may launch or stop a session (hardening_loop/orchestrator/launch.py), and that
-- the work item machine then accepts it.
use superset_hardening_loop.Prelude.{
  ℕ, ◌<◌, String, ◌≡◌, refl, ◌↔◌, Bool, true, false, none, List, [], ◌∷◌, arith,
}
use superset_hardening_loop.Prelude.Floats.{Floats}
use superset_hardening_loop.Domain.Severity.{Severity}
use superset_hardening_loop.Domain.WorkItemState.{WorkItemState}
use superset_hardening_loop.Lifecycle.WorkItem.{WorkItemEvent, Transition, next_work_item_state}
use superset_hardening_loop.Lifecycle.HumanGate.{Run, here, step}
use superset_hardening_loop.Launch.{eligible, preview, cancel_block_for}

-- No session runs for an item in one of these states, and a human may start one.
abbrev pub is_launchable : WorkItemState → Bool
is_launchable WorkItemState.queued = true
is_launchable WorkItemState.issue_open = true
is_launchable WorkItemState.needs_human = true
is_launchable WorkItemState.failed = true
is_launchable _ = false

-- The events by which a launch takes an item to `dispatching`.
abbrev pub launch_events : WorkItemState → List WorkItemEvent
launch_events WorkItemState.queued =
    WorkItemEvent.issue_created ∷ WorkItemEvent.dispatch_started ∷ []
launch_events WorkItemState.issue_open = WorkItemEvent.dispatch_started ∷ []
launch_events _ = WorkItemEvent.human_retry ∷ WorkItemEvent.dispatch_started ∷ []

launch_runs :
    (s : WorkItemState) → is_launchable s ≡ true → Run s (launch_events s) WorkItemState.dispatching
unfolding next_work_item_state
launch_runs WorkItemState.queued h =
    step WorkItemEvent.issue_created refl (step WorkItemEvent.dispatch_started refl here)
launch_runs WorkItemState.issue_open h = step WorkItemEvent.dispatch_started refl here
launch_runs WorkItemState.needs_human h =
    step WorkItemEvent.human_retry refl (step WorkItemEvent.dispatch_started refl here)
launch_runs WorkItemState.failed h =
    step WorkItemEvent.human_retry refl (step WorkItemEvent.dispatch_started refl here)
launch_runs _ h = cc

module _ (fl : Floats) where
  open fl use {Float, gt, add}

  -- An operator may launch exactly when the item waits for a session, no scan is pending, a session
  -- slot is free and the item's cap fits the budget.
  pub preview-eligible :
      (work_item_id : ℕ) (state : WorkItemState) (severity : Severity) (has_issue : Bool)
      (acu_cap : Float) (active most : ℕ) (consumed outstanding budget : Float)
      (repo branch : String) (pending : ℕ)
      → (eligible (
            preview fl work_item_id state severity has_issue acu_cap active most consumed
              outstanding budget repo branch pending)
          ≡ true)
        ↔ ((is_launchable state ≡ true)
            × (pending ≡ 0)
            × (active < most)
            × (gt (add (add consumed outstanding) acu_cap) budget ≡ false))
  unfolding preview eligible
  preview-eligible work_item_id state severity has_issue acu_cap active most consumed outstanding
        budget repo branch pending =
      ground arith

  -- The machine accepts the events of an eligible launch, up to `dispatching`.
  pub eligible_runs :
      (work_item_id : ℕ) (state : WorkItemState) (severity : Severity) (has_issue : Bool)
      (acu_cap : Float) (active most : ℕ) (consumed outstanding budget : Float)
      (repo branch : String) (pending : ℕ)
      → eligible (
          preview fl work_item_id state severity has_issue acu_cap active most consumed outstanding
            budget repo branch pending)
        ≡ true
      → Run state (launch_events state) WorkItemState.dispatching
  eligible_runs work_item_id state severity has_issue acu_cap active most consumed outstanding
        budget repo branch pending h =
      launch_runs state
        ((preview-eligible work_item_id state severity has_issue acu_cap active most consumed
            outstanding budget repo branch pending).0
          h).0

-- A session may be stopped exactly when the item is `session_active` with a session and no pull
-- request, and a stop is an event that the machine accepts in that state.
pub cancel_allowed :
    (state : WorkItemState) (has_session has_pr : Bool)
    → (cancel_block_for state has_session has_pr ≡ none) ↔ (
        (next_work_item_state state WorkItemEvent.operator_cancelled
          ≡ Transition.moved WorkItemState.needs_human)
        × (has_session ≡ true)
        × (has_pr ≡ false))
unfolding cancel_block_for next_work_item_state
cancel_allowed state has_session has_pr = ground arith
