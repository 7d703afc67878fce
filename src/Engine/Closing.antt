-- ===== src/Engine/Closing.antt =====
-- `_close_work_item` (hardening_loop/orchestrator/engine.py): what becomes of a merged work item once a scan
-- run has judged its findings. A stored finding has an id.
use superset_hardening_loop.Prelude.{ℕ, Bool, none, some, List, [], ◌∷◌}
use superset_hardening_loop.Prelude.Tests.{leb, if◌then◌else◌}
use superset_hardening_loop.Prelude.Equality.{string_eq, nat_eq}
use superset_hardening_loop.Prelude.Lists.{any, is_empty}
use superset_hardening_loop.Prelude.Strings.{concat}
use superset_hardening_loop.Domain.FindingState.{FindingState}
use superset_hardening_loop.Domain.LifecycleLevel.{LifecycleLevel, level_number}
use superset_hardening_loop.Models.Scan.{ScanRun, ScanJob, Sighting}
use superset_hardening_loop.Lifecycle.WorkItem.{WorkItemEvent}
use superset_hardening_loop.Vex.{CharClasses, Checked}
use superset_hardening_loop.Closer.Validity.{Outside}
use superset_hardening_loop.Closer.Decide.{issue_may_close}
use superset_hardening_loop.Engine.World.{Call, World, called, Outcome, Attempt, ◌>>=◌}
use superset_hardening_loop.Engine.Apply.{apply_event}
use superset_hardening_loop.Engine.Levels.{raise_level, set_level}
use superset_hardening_loop.Engine.Archive.{Archive}
use superset_hardening_loop.Engine.Judging.{
  is_not_applicable, is_merged, Judgement, Judged, member_states, judgements, still_ids,
  still_reason, invalid_reason, evaluated_reason, block_still, verified_comment, after_judging,
  judge_members,
}

module _ (succeeds : Call → Bool) (now : ℕ) where
  -- A call outside any `try` block.
  abbrev pub perform : Call → World → Outcome
  perform c w = if succeeds c then Attempt.stored (called c w) else Attempt.rolled_back w.calls

  -- The branch in which every member is closed; `has_row` says whether the item has a pull request.
  unfoldable pub verify : Bool → ScanRun → List FindingState → World → Outcome
  verify has_row run states w =
      let w1 =
        apply_event succeeds now WorkItemEvent.rescan_verified
          (concat ("run " ∷ run.external_run_id ∷ [])) "scanner"
          (record w { item = record w.item { verified_at = some now } }) in
      let w2 =
        if has_row
        then raise_level now LifecycleLevel.rescan_verified run.external_run_id w1
        else set_level
            (if leb (level_number LifecycleLevel.rescan_verified)
                (level_number w1.item.lifecycle_level)
              then w1.item.lifecycle_level
              else LifecycleLevel.rescan_verified)
            w1 in
      elim w2.item.issue_number [
        | none ↦ Attempt.stored w2
        | some n ↦ perform (Call.comment_issue n (verified_comment run states)) w2 >>= λ v.
            perform (Call.close_issue n) v
      ]

  -- The branch in which some member is not closed.
  unfoldable pub report_still : ScanRun → Judged → World → World
  report_still run judged w =
      if is_empty (still_ids judged)
      then w
      else let shown =
          apply_event succeeds now WorkItemEvent.rescan_shows_present (still_reason run judged)
            "scanner" w in
        let blocked = block_still now run judged shown.log in
        record shown { findings = blocked.0; log = blocked.1 }

  -- What follows the first loop.
  unfoldable pub conclude : Bool → ScanRun → Judged → World → Outcome
  conclude has_row run judged w =
      if any (λ (j : Judgement). is_not_applicable j.outcome) (judgements judged)
      then Attempt.stored (
          apply_event succeeds now WorkItemEvent.rescan_started (invalid_reason run judged)
            "controller" w)
      else let w1 =
          if is_merged w.item.state
          then apply_event succeeds now WorkItemEvent.rescan_started (evaluated_reason run)
              "controller" w
          else w in
        if issue_may_close (member_states judged)
        then verify has_row run (member_states judged) w1
        else Attempt.stored (report_still run judged w1)

module _ (out : Outside) (cs : CharClasses) (succeeds : Call → Bool) (archive : Archive)
    (now : ℕ) where
  unfoldable pub close_work_item : Bool → ScanRun → List ScanJob → List Sighting → World → Outcome
  close_work_item has_row run jobs sightings w =
      elim (judge_members out cs archive now w.item w.findings run jobs sightings w.findings
        w.log) [
          | Checked.fault e ↦ Attempt.rolled_back w.calls
          | Checked.ok r ↦ conclude succeeds now has_row run r.0 (after_judging w r.0 r.1)
        ]
