-- ===== src/Tests/Follow.antt =====
-- The theorems on a pull request that is followed (hardening_loop/orchestrator/engine.py) at the item of
-- Tests.Engine.
use superset_hardening_loop.Prelude.{
  true, ◌≤◌, String, ◌≡◌, refl, inl, arith, false, none, some, List, [], ◌∷◌,
}
use superset_hardening_loop.Prelude.Equality.{string_eq, ◌==◌}
use superset_hardening_loop.Domain.WorkItemState.{WorkItemState}
use superset_hardening_loop.Depth.Ladder.{CheckRun, default_ladder}
use superset_hardening_loop.Policy.{PullRequestInfo}
use superset_hardening_loop.Engine.World.{World, PrCheck, Attempt}
use superset_hardening_loop.Engine.Checks.{Verdict, relevant, checks_verdict}
use superset_hardening_loop.Engine.Approval.{Review, check_approval}
use superset_hardening_loop.Engine.Record.{record_check, record_checks, record_depth, check_named}
use superset_hardening_loop.Engine.Retry.{resume, retry_or_fail}
use superset_hardening_loop.Engine.Review.{
  Answer, ReviewStatus, ReviewService, observe_review, check_review,
}
use superset_hardening_loop.Engine.Follow.{
  Settings, take_head, record_head, follow_open, turn_green, await_review, await_approval, apply_pr,
}
use superset_hardening_loop.Engine.Apply.{sync_human_label, move, apply_from, apply_event}
use superset_hardening_loop.Engine.Levels.{raise_level}
use superset_hardening_loop.Lifecycle.WorkItem.{work_item_transitions, next_work_item_state}
use superset_hardening_loop.Depth.Evaluate.{
  evaluate, evaluate_from, highest_from, highest_passed, rung, rung_records, rung_status,
  component_record, component_status, matched_status, matching_runs, concluded_status,
}
use superset_hardening_loop.Engine.Reviewed.{HasReview, ReadyFor}
use superset_hardening_loop.Engine.Ready.{apply_pr-ReadyFor, apply_pr_ready}
use superset_hardening_loop.Engine.Retries.{Retried, retry_or_fail_bounded, apply_pr_hands_off}
use superset_hardening_loop.Engine.Recorded.{said_of_row, last_said, record_checks-said}
use superset_hardening_loop.Domain.Kind.{Kind}
use superset_hardening_loop.Engine.Labels.{Issue, approved_label, resolve, apply_labels}
use superset_hardening_loop.Engine.Resolved.{Resolved, apply_labels-Resolved}
use superset_hardening_loop.Tests.Closing.{outside, classes}
use superset_hardening_loop.Tests.Engine.{ready}
use superset_hardening_loop.Tests.Rescan.{archive, all_succeed, world_or}

abbrev settings : Settings
settings = record {
  retries_per_work_item = 2;
  review_timeout_minutes = 30;
  approver_logins = "Hunter-1298" ∷ [];
  required_check_names = "unit-tests" ∷ [];
}

abbrev open_pr : PullRequestInfo
open_pr = record {
  repo = "Hunter-1298/superset";
  number = 4;
  url = "https://github.com/Hunter-1298/superset/pull/4";
  title = "Upgrade requests";
  state = "open";
  merged = false;
  merge_commit_sha = none;
  base_ref = "main";
  head_ref = "devin/requests";
  head_repo = "Hunter-1298/superset";
  head_sha = "0a1b";
  author = "devin";
  merged_at = none;
}

abbrev unit_tests : String → CheckRun
unit_tests conclusion = record {
  name = "unit-tests";
  status = "completed";
  conclusion = some conclusion;
  url = none;
}

-- Devin has reviewed the head.
abbrev reviewed : ReviewService
reviewed = record {
  get_review = λ url head. Answer.answered (
      some (record {
        status = ReviewStatus.completed;
        repo_path = "Hunter-1298/superset";
        pr_number = 4;
        commit_sha = head;
      }));
  trigger_review = λ url. Answer.raised "not now";
}

abbrev in_state : WorkItemState → World
in_state s = record ready { item = record ready.item { state = s } }

abbrev no_reviews : Answer (List Review)
no_reviews = Answer.answered []

-- What a head with green checks and a review comes to.
abbrev followed : World → World
followed w = world_or w (
    apply_pr outside classes archive settings all_succeed 50 reviewed no_reviews open_pr
      (unit_tests "success" ∷ []) w)

abbrev waiting : World
waiting = in_state WorkItemState.checks_running

abbrev now_ready : World
now_ready = followed waiting

followed_stored :
    apply_pr outside classes archive settings all_succeed 50 reviewed no_reviews open_pr
      (unit_tests "success" ∷ [])
      waiting
    ≡ Attempt.stored now_ready
unfolding apply_pr take_head follow_open record_head record_depth record_checks record_check
    evaluate evaluate_from highest_passed turn_green await_review await_approval check_review
    observe_review check_approval checks_verdict relevant apply_event apply_from raise_level
    next_work_item_state work_item_transitions move sync_human_label highest_from rung rung_records
    default_ladder rung_status component_record component_status matched_status matching_runs
    concluded_status
followed_stored = refl

apply_pr_ready_example :
    (open_pr.merged ≡ false)
    × ((open_pr.state == "closed") ≡ false)
    × (checks_verdict settings.required_check_names (unit_tests "success" ∷ []) ≡ Verdict.green)
    × HasReview open_pr.head_sha now_ready
unfolding apply_pr take_head follow_open record_head record_depth record_checks record_check
    evaluate evaluate_from highest_passed turn_green await_review await_approval check_review
    observe_review check_approval checks_verdict relevant apply_event apply_from raise_level
    next_work_item_state work_item_transitions move sync_human_label highest_from rung rung_records
    default_ladder rung_status component_record component_status matched_status matching_runs
    concluded_status
apply_pr_ready_example =
    apply_pr_ready outside classes archive settings all_succeed 50 reviewed no_reviews open_pr
      (unit_tests "success" ∷ []) waiting {v = now_ready} followed_stored refl refl

apply_pr-ReadyFor_example : ReadyFor now_ready.row.head_sha now_ready
apply_pr-ReadyFor_example =
    apply_pr-ReadyFor outside classes archive settings all_succeed 50 reviewed no_reviews open_pr
      (unit_tests "success" ∷ []) waiting {v = now_ready} (inl refl) followed_stored

-- A red head whose session is asked once more.
abbrev red : World
red = in_state WorkItemState.checks_failed

abbrev asked : World
asked =
    world_or red
      (retry_or_fail all_succeed 2 50 open_pr.url open_pr.head_sha (unit_tests "failure" ∷ []) red)

asked_stored :
    retry_or_fail all_succeed 2 50 open_pr.url open_pr.head_sha (unit_tests "failure" ∷ []) red
    ≡ Attempt.stored asked
unfolding retry_or_fail resume apply_event apply_from next_work_item_state work_item_transitions
    move sync_human_label
asked_stored = refl

retry_or_fail_bounded_example : (asked.item.retries_used ≤ 2) × Retried 2 red asked
retry_or_fail_bounded_example =
    retry_or_fail_bounded all_succeed 2 50 open_pr.url open_pr.head_sha (unit_tests "failure" ∷ [])
      red {v = asked} refl (omega arith) asked_stored

-- An item that a human owns.
abbrev owned : World
owned = in_state WorkItemState.needs_human

apply_pr_hands_off_example :
    (apply_pr outside classes archive settings all_succeed 50 reviewed no_reviews open_pr [] owned
      ≡ Attempt.stored (take_head all_succeed 50 open_pr owned))
    × ((take_head all_succeed 50 open_pr owned).item.state ≡ WorkItemState.needs_human)
    × ((take_head all_succeed 50 open_pr owned).item.retries_used ≡ owned.item.retries_used)
    × ((take_head all_succeed 50 open_pr owned).calls ≡ owned.calls)
    × ((take_head all_succeed 50 open_pr owned).checks ≡ owned.checks)
apply_pr_hands_off_example =
    apply_pr_hands_off outside classes archive settings all_succeed 50 reviewed no_reviews open_pr
      [] owned refl refl refl

abbrev old_rows : List PrCheck
old_rows =
    record {
      head_sha = "0a1b";
      name = "unit-tests";
      status = "queued";
      conclusion = none;
      url = none;
      observed_at = 1;
    }
    ∷ []

record_checks-said_example :
    (said_of_row (
        check_named "0a1b" "unit-tests"
          (record_checks 50 "0a1b" (unit_tests "success" ∷ []) old_rows))
      ≡ last_said "unit-tests"
          (unit_tests "success" ∷ [])
          (said_of_row (check_named "0a1b" "unit-tests" old_rows)))
    × (check_named "ffff" "unit-tests"
          (record_checks 50 "0a1b" (unit_tests "success" ∷ []) old_rows)
        ≡ check_named "ffff" "unit-tests" old_rows)
record_checks-said_example =
    record_checks-said 50 "0a1b" "unit-tests" (unit_tests "success" ∷ []) old_rows "ffff" refl

-- A human approves the disposition of an item without a fix.
abbrev no_fix : World
no_fix = record owned {
  item = record owned.item { kind = Kind.no_fix_reachability; issue_number = some 12 };
}

abbrev approved_issue : Issue
approved_issue = record { state = "open"; labels = approved_label ∷ [] }

apply_labels-Resolved_example :
    Resolved approved_issue no_fix (resolve all_succeed 50 approved_label no_fix)
unfolding apply_labels
apply_labels-Resolved_example =
    apply_labels-Resolved all_succeed 50 12 approved_issue no_fix
      {r = (true, resolve all_succeed 50 approved_label no_fix)} refl
