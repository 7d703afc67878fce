-- ===== src/Tests/Lifecycle.antt =====
-- The theorems on the state machines (hardening_loop/orchestrator/state.py) at concrete runs.
use superset_hardening_loop.Prelude.{◌≤◌, ◌≡◌, refl, true, List, [], ◌∷◌}
use superset_hardening_loop.Prelude.Lists.{any, length}
use superset_hardening_loop.Domain.WorkItemState.{WorkItemState}
use superset_hardening_loop.Domain.FindingState.{FindingState}
use superset_hardening_loop.Lifecycle.WorkItem.{WorkItemEvent, next_work_item_state}
use superset_hardening_loop.Lifecycle.Finding.{FindingEvent, next_finding_state}
use superset_hardening_loop.Lifecycle.HumanGate.{
  Run, here, step, is_human_release, is_rescan_verified, released_needs_human,
  verified_needs_rescan,
}
use superset_hardening_loop.Lifecycle.Progress.{verified_reachable}
use superset_hardening_loop.Lifecycle.Closure
use superset_hardening_loop.Lifecycle.Closure.{
  FindingRun, is_closing, is_reopening, closed_needs_evidence, reopened_needs_cause,
}

-- A fix that goes through without a hitch.
abbrev smooth : List WorkItemEvent
smooth =
    WorkItemEvent.issue_created ∷ WorkItemEvent.dispatch_started ∷ WorkItemEvent.session_created
    ∷ WorkItemEvent.pr_opened ∷ WorkItemEvent.checks_started ∷ WorkItemEvent.checks_green
    ∷ WorkItemEvent.review_completed ∷ WorkItemEvent.human_merged ∷ WorkItemEvent.rescan_started
    ∷ WorkItemEvent.rescan_verified ∷ []

smooth_runs : Run WorkItemState.queued smooth WorkItemState.verified
unfolding next_work_item_state
smooth_runs = step WorkItemEvent.issue_created refl (
    step WorkItemEvent.dispatch_started refl (
      step WorkItemEvent.session_created refl (
        step WorkItemEvent.pr_opened refl (
          step WorkItemEvent.checks_started refl (
            step WorkItemEvent.checks_green refl (
              step WorkItemEvent.review_completed refl (
                step WorkItemEvent.human_merged refl (
                  step WorkItemEvent.rescan_started refl
                    (step WorkItemEvent.rescan_verified refl here)))))))))

released_needs_human_example : any is_human_release smooth ≡ true
released_needs_human_example = released_needs_human smooth_runs refl refl

verified_needs_rescan_example : any is_rescan_verified smooth ≡ true
verified_needs_rescan_example = verified_needs_rescan smooth_runs refl refl

abbrev launched : List WorkItemEvent
launched =
    WorkItemEvent.issue_created ∷ WorkItemEvent.dispatch_started ∷ WorkItemEvent.session_created
    ∷ WorkItemEvent.pr_opened ∷ []

launched_runs : Run WorkItemState.queued launched WorkItemState.pr_open
unfolding next_work_item_state
launched_runs = step WorkItemEvent.issue_created refl (
    step WorkItemEvent.dispatch_started refl
      (step WorkItemEvent.session_created refl (step WorkItemEvent.pr_opened refl here)))

verified_reachable_example :
    (es : List WorkItemEvent) × Run WorkItemState.failed es WorkItemState.verified × (length es ≤ 5)
verified_reachable_example = verified_reachable WorkItemState.failed (λ e. cc)

abbrev fixing : List FindingEvent
fixing =
    FindingEvent.grouped ∷ FindingEvent.remediation_started ∷ FindingEvent.pr_merged
    ∷ FindingEvent.closing_absent ∷ []

fixing_runs : FindingRun FindingState.opened fixing FindingState.fixed
unfolding next_finding_state
fixing_runs = Closure.step FindingEvent.grouped refl (
    Closure.step FindingEvent.remediation_started refl (
      Closure.step FindingEvent.pr_merged refl
        (Closure.step FindingEvent.closing_absent refl Closure.here)))

closed_needs_evidence_example : any is_closing fixing ≡ true
closed_needs_evidence_example = closed_needs_evidence fixing_runs refl refl

relapse_runs : FindingRun FindingState.fixed (FindingEvent.reappeared ∷ []) FindingState.regression
unfolding next_finding_state
relapse_runs = Closure.step FindingEvent.reappeared refl Closure.here
