-- ===== src/Engine/Follow.antt =====
-- `_apply_pr` and `_close_from_applied_runs` (hardening_loop/orchestrator/engine.py): what GitHub says of a
-- pull request, taken over into its row and its work item.
use superset_hardening_loop.Prelude.{
  ℕ, String, Bool, true, false, ◌&&◌, ◌||◌, not, none, some, List, [], ◌∷◌,
}
use superset_hardening_loop.Prelude.Tests.{ltb, leb, nat_beq, get_or, is_some, if◌then◌else◌}
use superset_hardening_loop.Prelude.Equality.{string_eq, nat_eq, same_option, ◌==◌}
use superset_hardening_loop.Prelude.Strings.{concat, join}
use superset_hardening_loop.Prelude.Lists.{keep_if}
use superset_hardening_loop.Prelude.Sorting.{sort_by}
use superset_hardening_loop.Domain.WorkItemState.{WorkItemState, value}
use superset_hardening_loop.Domain.LifecycleLevel.{LifecycleLevel}
use superset_hardening_loop.Models.Scan.{ScanRun}
use superset_hardening_loop.Models.Finding.{Finding}
use superset_hardening_loop.Lifecycle.WorkItem.{WorkItemEvent}
use superset_hardening_loop.Lifecycle.Finding.{FindingEvent}
use superset_hardening_loop.Depth.Ladder.{CheckRun}
use superset_hardening_loop.Policy.{PullRequestInfo}
use superset_hardening_loop.Vex.{CharClasses}
use superset_hardening_loop.Closer.Validity.{Outside}
use superset_hardening_loop.Engine.World.{
  WorkItem, Event, Call, World, write, entry, Outcome, Attempt, ◌>>=◌,
}
use superset_hardening_loop.Engine.Apply.{apply_event, is_needs_human, Traced, apply_finding_event}
use superset_hardening_loop.Engine.Levels.{raise_level, reverify_new_head}
use superset_hardening_loop.Engine.Checks.{Verdict, is_red, names_in, checks_verdict}
use superset_hardening_loop.Engine.Approval.{Review, check_approval}
use superset_hardening_loop.Engine.Archive.{Archive, jobs_of, sightings_of}
use superset_hardening_loop.Engine.Judging.{is_member, finding_id}
use superset_hardening_loop.Engine.Closing.{close_work_item}
use superset_hardening_loop.Engine.Database.{awaits_scan}
use superset_hardening_loop.Engine.Record.{record_checks, record_depth}
use superset_hardening_loop.Engine.Retry.{retry_or_fail}
use superset_hardening_loop.Engine.Review.{Answer, ReviewService, check_review}

-- The settings that are read here (hardening_loop/config.py).
pub record Settings : Type 0 where
  pub retries_per_work_item : ℕ
  pub review_timeout_minutes : ℕ
  pub approver_logins : List String
  pub required_check_names : List String

-- The applied runs that finished at a merge or later, oldest first.
abbrev finished_since : ℕ → ScanRun → Bool
finished_since merged_at r =
    is_some r.closure_applied_at && elim r.finished_at [ none ↦ false | some t ↦ leb merged_at t ]

abbrev runs_before : ScanRun → ScanRun → Bool
runs_before a b =
    let s = get_or a.finished_at 0 in
    let t = get_or b.finished_at 0 in ltb s t || nat_beq s t && ltb (get_or a.id 0) (get_or b.id 0)

unfoldable pub applied_runs_since : ℕ → List ScanRun → List ScanRun
applied_runs_since merged_at runs = sort_by runs_before (keep_if (finished_since merged_at) runs)

module _ (out : Outside) (cs : CharClasses) (succeeds : Call → Bool) (archive : Archive)
    (now : ℕ) where
  -- The counts of these evaluations are dropped.
  unfoldable pub close_from_runs : List ScanRun → World → Outcome
  close_from_runs [] w = Attempt.stored w
  close_from_runs (run ∷ runs) w =
      let i = get_or run.id 0 in
      elim (awaits_scan w.item.state) [
        | false ↦ Attempt.stored w
        | true ↦
            close_work_item out cs succeeds archive now true run (jobs_of i archive.jobs)
              (sightings_of i archive.sightings) (record w { counts = [] })
            >>= λ v. close_from_runs runs (record v { counts = w.counts })
      ]

  unfoldable pub close_from_applied_runs : World → Outcome
  close_from_applied_runs w = elim w.item.merged_at [
    | none ↦ Attempt.stored w
    | some t ↦ close_from_runs (applied_runs_since t archive.runs) w
  ]

-- `_finding(..., FindingEvent.pr_merged, ...)` for every member.
unfoldable pub merge_findings :
    ℕ → WorkItem → String → List Finding → List Event → List Finding × List Event
merge_findings now wi sha [] log = ([], log)
merge_findings now wi sha (f ∷ fs) log =
    let t : Traced =
      if is_member wi f
      then (apply_finding_event now (finding_id f) FindingEvent.pr_merged sha "controller" none
          (record { finding = f; log = log })).1
      else record { finding = f; log = log } in
    let rest = merge_findings now wi sha fs t.log in (t.finding ∷ rest.0, rest.1)

abbrev pub may_be_merged : WorkItemState → Bool
may_be_merged WorkItemState.ready_for_human = true
may_be_merged WorkItemState.needs_human = true
may_be_merged _ = false

abbrev pub is_pr_open : WorkItemState → Bool
is_pr_open WorkItemState.pr_open = true
is_pr_open _ = false

abbrev pub is_checks_running : WorkItemState → Bool
is_checks_running WorkItemState.checks_running = true
is_checks_running _ = false

abbrev pub is_review_pending : WorkItemState → Bool
is_review_pending WorkItemState.review_pending = true
is_review_pending _ = false

abbrev pub is_ready : WorkItemState → Bool
is_ready WorkItemState.ready_for_human = true
is_ready _ = false

abbrev pub can_turn_red : WorkItemState → Bool
can_turn_red state = is_checks_running state || is_review_pending state || is_ready state

module _ (succeeds : Call → Bool) (now : ℕ) where
  -- The columns that a push resets, before the levels.
  abbrev pub pushed : PullRequestInfo → World → World
  pushed pr w =
      let w1 =
        write
          (entry now "controller" "pull_request" w.row.id "head_changed" w.row.head_sha pr.head_sha
            "new push" [])
          w in
      record w1 {
        row = record w1.row { head_sha = pr.head_sha; review_status = none; approved_by = none };
        item = record w1.item { pr_head_sha = some pr.head_sha };
      }

  -- The first part of `_apply_pr`.
  unfoldable pub take_head : PullRequestInfo → World → World
  take_head pr w =
      let touched : World = record w { row = record w.row { updated_at = now } } in
      let changed = pushed pr touched in
      if pr.head_sha == w.row.head_sha
      then touched
      else if not pr.merged && not (pr.state == "closed")
      then reverify_new_head succeeds now pr.head_sha changed
      else changed

  abbrev pub with_merge : PullRequestInfo → World → World
  with_merge pr w =
      let at = some (get_or pr.merged_at now) in
      record w {
        row = record w.row { state = "merged"; merge_sha = pr.merge_commit_sha; merged_at = at };
        item = record w.item { merge_sha = pr.merge_commit_sha; merged_at = at };
      }

  -- A merged pull request, up to the scans that were applied before.
  unfoldable pub merged_item : PullRequestInfo → World → World
  merged_item pr w =
      let sha = get_or pr.merge_commit_sha "" in
      let v =
        raise_level now LifecycleLevel.merged "merged"
          (apply_event succeeds now WorkItemEvent.human_merged sha "human" w) in
      let found = merge_findings now v.item sha v.findings v.log in
      record v { findings = found.0; log = found.1 }

  abbrev pub blocked_before_merge : PullRequestInfo → World → World
  blocked_before_merge pr w =
      let v = with_merge pr w in
      if may_be_merged v.item.state
      then v
      else apply_event succeeds now WorkItemEvent.blocked
          (concat ("merged_before_verification:" ∷ value v.item.state ∷ [])) "controller" v

  unfoldable pub closed_unmerged : PullRequestInfo → World → World
  closed_unmerged pr w =
      let v : World = record w { row = record w.row { state = "closed" } } in
      if is_needs_human v.item.state
      then v
      else apply_event succeeds now WorkItemEvent.pr_closed_unmerged pr.url "human" v

  -- The check runs of an open pull request are recorded and their start is noted.
  unfoldable pub record_head : PullRequestInfo → List CheckRun → World → World
  record_head pr checks w =
      let v =
        record_depth now pr.head_sha checks
          (record w { checks = record_checks now pr.head_sha checks w.checks }) in
      if is_pr_open v.item.state
      then apply_event succeeds now WorkItemEvent.checks_started pr.head_sha "controller" v
      else v

module _ (settings : Settings) (succeeds : Call → Bool) (now : ℕ) where
  unfoldable pub turn_red : PullRequestInfo → List CheckRun → World → Outcome
  turn_red pr checks w =
      if can_turn_red w.item.state
      then retry_or_fail succeeds settings.retries_per_work_item now pr.url pr.head_sha checks (
          apply_event succeeds now WorkItemEvent.checks_red
            (join ", " (names_in (keep_if is_red checks))) "ci" w)
      else Attempt.stored w

  abbrev pub first_head_green : PullRequestInfo → World → World
  first_head_green pr w =
      if not (is_some w.row.first_head_checks_green)
        && same_option (some pr.head_sha) w.row.first_head_sha
      then record w { row = record w.row { first_head_checks_green = some true } }
      else w

  unfoldable pub turn_green : PullRequestInfo → World → World
  turn_green pr w =
      if is_checks_running w.item.state
      then raise_level now LifecycleLevel.ci_green "ci_green" (
          apply_event succeeds now WorkItemEvent.checks_green pr.head_sha "ci"
            (first_head_green pr w))
      else w

  unfoldable pub await_review : ReviewService → PullRequestInfo → World → World
  await_review api pr w =
      if is_review_pending w.item.state
      then check_review succeeds settings.review_timeout_minutes now api pr.url pr.head_sha w
      else w

  -- `list_pr_reviews` may raise.
  unfoldable pub await_approval : Answer (List Review) → PullRequestInfo → World → Outcome
  await_approval reviews pr w =
      if is_ready w.item.state
      then elim reviews [
        | Answer.raised text ↦ Attempt.rolled_back w.calls
        | Answer.answered rs ↦
            Attempt.stored (check_approval settings.approver_logins now pr.head_sha rs w)
      ]
      else Attempt.stored w

  -- What follows for an open pull request that no human owns.
  unfoldable pub follow_open :
      ReviewService → Answer (List Review) → PullRequestInfo → List CheckRun → World → Outcome
  follow_open api reviews pr checks w =
      let v = record_head succeeds now pr checks w in
      elim (checks_verdict settings.required_check_names checks) [
        | Verdict.running ↦ Attempt.stored v
        | Verdict.red ↦ turn_red pr checks v
        | Verdict.green ↦ await_approval reviews pr (await_review api pr (turn_green pr v))
      ]

module _ (out : Outside) (cs : CharClasses) (archive : Archive) (settings : Settings)
    (succeeds : Call → Bool) (now : ℕ) where
  unfoldable pub take_merge : PullRequestInfo → World → Outcome
  take_merge pr w =
      let v = blocked_before_merge succeeds now pr w in
      if may_be_merged v.item.state
      then close_from_applied_runs out cs succeeds archive now (merged_item succeeds now pr v)
      else Attempt.stored v

  unfoldable pub apply_pr :
      ReviewService → Answer (List Review) → PullRequestInfo → List CheckRun → World → Outcome
  apply_pr api reviews pr checks w =
      let v = take_head succeeds now pr w in
      if pr.merged
      then take_merge pr v
      else if pr.state == "closed"
      then Attempt.stored (closed_unmerged succeeds now pr v)
      else if is_needs_human v.item.state
      then Attempt.stored v
      else follow_open settings succeeds now api reviews pr checks v
