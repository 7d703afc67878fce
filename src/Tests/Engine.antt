-- ===== src/Tests/Engine.antt =====
-- The theorems on the engine's changes of a work item (hardening_loop/orchestrator/engine.py) at
-- concrete items.
use superset_hardening_loop.Prelude.{
  ◌⊎◌, ◌||◌, not, ◌≤◌, String, ◌≡◌, refl, ◌↔◌, Bool, true, false, Option, none, some, List, [], ◌∷◌,
}
use superset_hardening_loop.Prelude.Tests.{get_or, if◌then◌else◌}
use superset_hardening_loop.Prelude.Equality.{string_eq}
use superset_hardening_loop.Prelude.Lists.{any, all}
use superset_hardening_loop.Domain.WorkItemState.{WorkItemState}
use superset_hardening_loop.Domain.LifecycleLevel.{LifecycleLevel, level_number}
use superset_hardening_loop.Domain.Kind.{Kind}
use superset_hardening_loop.Lifecycle.WorkItem.{
  WorkItemEvent, work_item_transitions, next_work_item_state,
}
use superset_hardening_loop.Depth.Ladder.{VerificationDepth, CheckRun}
use superset_hardening_loop.Engine.World.{Call, World}
use superset_hardening_loop.Engine.Apply.{
  blockable, sync_human_label, move, apply_from, apply_event,
}
use superset_hardening_loop.Engine.Levels.{raise_level, reverify_new_head, is_reviewed}
use superset_hardening_loop.Engine.Checks.{
  counts, has_passed, is_reported, Verdict, relevant, checks_verdict, checks_green_iff,
}
use superset_hardening_loop.Engine.Laws.{apply_event-state, apply_from-fuel, reverify_new_head_lem}
use superset_hardening_loop.Engine.Approval.{
  Review, check_approval, NoneApproves, ApprovedBy, check_approval_sound,
}
use superset_hardening_loop.Engine.Audit.{Step, IsAudited, run_steps, run_steps-IsAudited}

-- An item whose pull request waits for a human.
abbrev pub ready : World
ready = record {
  item = record {
    id = 7;
    kind = Kind.dependency_upgrade;
    state = WorkItemState.ready_for_human;
    retries_used = 0;
    active_session_id = some "devin-1";
    issue_number = some 12;
    issue_url = none;
    pr_head_sha = some "0a1b";
    merge_sha = none;
    lifecycle_level = LifecycleLevel.review_completed;
    verification_depth = some VerificationDepth.targeted_unit;
    blocked_reason = none;
    human_resolution = none;
    updated_at = 0;
    merged_at = none;
    verified_at = none;
  };
  row = record {
    id = 4;
    head_sha = "0a1b";
    state = "open";
    merge_sha = none;
    first_head_sha = some "0a1b";
    first_head_checks_green = some true;
    lifecycle_level = LifecycleLevel.review_completed;
    verification_depth = some VerificationDepth.targeted_unit;
    depth_rungs = [];
    review_status = some "completed";
    review_id = none;
    review_head_sha = some "0a1b";
    approved_by = none;
    merged_at = none;
    updated_at = 0;
  };
  session = none;
  checks = [];
  verifications = [];
  findings = [];
  log = [];
  calls = [];
  counts = [];
}

-- Labels can be set, comments fail.
abbrev pub labels_only : Call → Bool
labels_only (Call.comment_issue n body) = false
labels_only _ = true

apply_event-state_example :
    (apply_event labels_only 5 WorkItemEvent.rescan_started "scan" "controller" ready).item.state
    ≡ get_or (work_item_transitions WorkItemState.ready_for_human WorkItemEvent.rescan_started) (
        if blockable WorkItemState.ready_for_human
        then WorkItemState.needs_human
        else WorkItemState.ready_for_human)
apply_event-state_example =
    apply_event-state labels_only 5 WorkItemEvent.rescan_started "scan" "controller" ready

refused_labels :
    (apply_event labels_only 5 WorkItemEvent.rescan_started "scan" "controller" ready).calls
    ≡ Call.add_labels 12 "needs-human" ∷ []
unfolding apply_event apply_from next_work_item_state work_item_transitions blockable move
    sync_human_label
refused_labels = refl

reverify_new_head_lem_example :
    (is_reviewed (reverify_new_head labels_only 5 "0a1b" ready).item.state ≡ false)
    × (level_number (reverify_new_head labels_only 5 "0a1b" ready).item.lifecycle_level ≤ 1)
    × (level_number (reverify_new_head labels_only 5 "0a1b" ready).row.lifecycle_level ≤ 1)
    × ((reverify_new_head labels_only 5 "0a1b" ready).item.verification_depth ≡ none)
    × ((reverify_new_head labels_only 5 "0a1b" ready).row.verification_depth ≡ none)
reverify_new_head_lem_example = reverify_new_head_lem labels_only 5 "0a1b" ready

abbrev steps : List Step
steps =
    Step.event 5 WorkItemEvent.human_merged "merged" "human:ops"
    ∷ Step.raise 5 LifecycleLevel.merged "merged"
    ∷ Step.event 6 WorkItemEvent.retry_sent "late" "controller"
    ∷ Step.event 7 WorkItemEvent.rescan_started "scan" "scanner"
    ∷ []

run_steps-IsAudited_example : IsAudited "ready_for_human" (run_steps labels_only steps ready)
run_steps-IsAudited_example = run_steps-IsAudited labels_only "ready_for_human" steps ready refl

abbrev run_of : String → String → Option String → CheckRun
run_of name status conclusion = record {
  name = name;
  status = status;
  conclusion = conclusion;
  url = none;
}

abbrev head_runs : List CheckRun
head_runs =
    run_of "unit-tests" "completed" (some "success")
    ∷ run_of "docs" "completed" (some "failure")
    ∷ []

checks_green_iff_example : (checks_verdict ("unit-tests" ∷ []) head_runs ≡ Verdict.green) ↔ (
    (any (counts ("unit-tests" ∷ [])) head_runs ≡ true)
    × (all (is_reported head_runs) ("unit-tests" ∷ []) ≡ true)
    × (all (λ c. not (counts ("unit-tests" ∷ []) c) || has_passed c) head_runs ≡ true))
checks_green_iff_example = checks_green_iff ("unit-tests" ∷ []) head_runs

-- Without required checks all of them count.
all_are_not_green : checks_verdict [] head_runs ≡ Verdict.red
unfolding checks_verdict relevant
all_are_not_green = refl

one_is_green :
    checks_verdict [] (run_of "unit-tests" "completed" (some "success") ∷ []) ≡ Verdict.green
unfolding checks_verdict relevant
one_is_green = refl

required_are_green : checks_verdict ("unit-tests" ∷ []) head_runs ≡ Verdict.green
unfolding checks_verdict relevant
required_are_green = refl

abbrev approval_of : String → String → Review
approval_of name sha = record { author = name; state = "APPROVED"; commit_sha = sha }

-- An approval of the head before this one, that of a stranger, and one that counts.
abbrev reviews : List Review
reviews = approval_of "alice" "ffff" ∷ approval_of "bob" "0a1b" ∷ approval_of "alice" "0a1b" ∷ []

check_approval_sound_example :
    (NoneApproves ("alice" ∷ []) "0a1b" reviews
      × (check_approval ("alice" ∷ []) 5 "0a1b" reviews ready ≡ ready))
    ⊎ ApprovedBy
        ("alice" ∷ [])
        "0a1b"
        reviews
        ready
        (check_approval ("alice" ∷ []) 5 "0a1b" reviews ready)
check_approval_sound_example = check_approval_sound ("alice" ∷ []) 5 "0a1b" reviews ready

stale_is_ignored :
    (check_approval ("alice" ∷ []) 5 "0a1b" (approval_of "alice" "ffff" ∷ []) ready).row.approved_by
    ≡ none
unfolding check_approval
stale_is_ignored = refl

stranger_is_ignored :
    (check_approval ("alice" ∷ []) 5 "0a1b" (approval_of "bob" "0a1b" ∷ []) ready).row.approved_by
    ≡ none
unfolding check_approval
stranger_is_ignored = refl

approver_is_recorded :
    (check_approval ("alice" ∷ []) 5 "0a1b" reviews ready).row.approved_by ≡ some "alice"
unfolding check_approval raise_level
approver_is_recorded = refl

apply_from-fuel_example :
    apply_from labels_only 9 5 WorkItemEvent.rescan_started "scan" "controller" ready
    ≡ apply_event labels_only 5 WorkItemEvent.rescan_started "scan" "controller" ready
apply_from-fuel_example =
    apply_from-fuel labels_only 5 7 WorkItemEvent.rescan_started "scan" "controller" ready
