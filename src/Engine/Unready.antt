-- ===== src/Engine/Unready.antt =====
-- A scan never leaves an item ready for a human (`_close_work_item` and `_close_from_applied_runs`,
-- hardening_loop/orchestrator/engine.py).
use superset_hardening_loop.Prelude.{
  ℕ, ◌≡◌, refl, inl, inr, Bool, true, false, some, List, [], ◌∷◌, arith,
}
use superset_hardening_loop.Prelude.Tests.{get_or, if◌then◌else◌, Bool-cases}
use superset_hardening_loop.Prelude.Equality.{string_eq}
use superset_hardening_loop.Prelude.Strings.{concat}
use superset_hardening_loop.Prelude.Lists.{any}
use superset_hardening_loop.Domain.LifecycleLevel.{LifecycleLevel}
use superset_hardening_loop.Lifecycle.WorkItem.{WorkItemEvent}
use superset_hardening_loop.Vex.{CharClasses}
use superset_hardening_loop.Closer.Validity.{Outside}
use superset_hardening_loop.Models.Scan.{ScanRun, ScanJob, Sighting}
use superset_hardening_loop.Engine.World.{Call, World, Attempt, Attempt-cases}
use superset_hardening_loop.Engine.Apply.{apply_event}
use superset_hardening_loop.Engine.Archive.{Archive, jobs_of, sightings_of}
use superset_hardening_loop.Engine.Judging.{
  Judgement, Judged, judgements, member_states, is_not_applicable, is_merged, still_reason,
  invalid_reason, evaluated_reason, judge_members, after_judging,
}
use superset_hardening_loop.Engine.Closing.{
  perform, verify, report_still, conclude, close_work_item,
}
use superset_hardening_loop.Engine.Judged.{Checked-cases}
use superset_hardening_loop.Engine.Database.{awaits_scan}
use superset_hardening_loop.Engine.Reviewed.{raise_level-review}
use superset_hardening_loop.Closer.Decide.{issue_may_close}
use superset_hardening_loop.Domain.FindingState.{FindingState}
use superset_hardening_loop.Engine.Follow.{close_from_runs, is_ready}
use superset_hardening_loop.Engine.Frame.{apply_event-unready}

-- A scan never leaves an item ready for a human.
module _ (succeeds : Call → Bool) (now : ℕ) where
  perform-item :
      (c : Call) (w : World) {v : World}
      → perform succeeds now c w ≡ Attempt.stored v
      → v.item ≡ w.item
  perform-item c w {v} h = ground arith

  verify-unready :
      (has_row : Bool) (run : ScanRun) (states : List FindingState) (w : World) {v : World}
      → verify succeeds now has_row run states w ≡ Attempt.stored v
      → is_ready v.item.state ≡ false
  unfolding verify
  verify-unready has_row run states w {v} h =
      let begun : World = record w { item = record w.item { verified_at = some now } } in
      let why = concat ("run " ∷ run.external_run_id ∷ []) in
      let told = apply_event succeeds now WorkItemEvent.rescan_verified why "scanner" begun in
      ground (
        arith,
        apply_event-unready succeeds now WorkItemEvent.rescan_verified why "scanner" begun refl,
        raise_level-review now LifecycleLevel.rescan_verified run.external_run_id told,
      )

  report_still-unready :
      (run : ScanRun) (judged : Judged) (w : World)
      → is_ready w.item.state ≡ false
      → is_ready (report_still succeeds now run judged w).item.state ≡ false
  unfolding report_still
  report_still-unready run judged w h = ground (
    arith,
    apply_event-unready succeeds now WorkItemEvent.rescan_shows_present (still_reason run judged)
        "scanner" w refl,
  )

  conclude-unready :
      (has_row : Bool) (run : ScanRun) (judged : Judged) (w : World) {v : World}
      → is_ready w.item.state ≡ false
      → conclude succeeds now has_row run judged w ≡ Attempt.stored v
      → is_ready v.item.state ≡ false
  unfolding conclude
  conclude-unready has_row run judged w {v} u h =
      let started =
        apply_event succeeds now WorkItemEvent.rescan_started (evaluated_reason run) "controller"
          w in
      let w1 = if is_merged w.item.state then started else w in
      let unready1 : is_ready w1.item.state ≡ false = ground (
        arith,
        apply_event-unready succeeds now WorkItemEvent.rescan_started (evaluated_reason run)
            "controller" w refl,
      ) in
      elim (Bool-cases (any (λ (j : Judgement). is_not_applicable j.outcome) (judgements judged))) [
        | inl n ↦ ground (
          arith,
          apply_event-unready succeeds now WorkItemEvent.rescan_started (invalid_reason run judged)
              "controller" w refl,
        )
        | inr n ↦ elim (Bool-cases (issue_may_close (member_states judged))) [
          | inl c ↦ verify-unready has_row run (member_states judged) w1 {v = v} (ground arith)
          | inr c ↦ ground (arith, report_still-unready run judged w1 unready1)
        ]
      ]

module _ (out : Outside) (cs : CharClasses) (succeeds : Call → Bool) (archive : Archive)
    (now : ℕ) where
  close_work_item-unready :
      (has_row : Bool) (run : ScanRun) (jobs : List ScanJob) (sightings : List Sighting) (w : World)
      {v : World}
      → is_ready w.item.state ≡ false
      → close_work_item out cs succeeds archive now has_row run jobs sightings w ≡ Attempt.stored v
      → is_ready v.item.state ≡ false
  unfolding close_work_item
  close_work_item-unready has_row run jobs sightings w {v} u h =
      elim (Checked-cases
        (judge_members out cs archive now w.item w.findings run jobs sightings w.findings w.log)) [
          | inr (fault, q) ↦ absurd (ground arith)
          | inl (r, q) ↦
              conclude-unready succeeds now has_row run r.0 (after_judging w r.0 r.1) {v = v} u
                (ground arith)
        ]

  pub close_from_runs-unready :
      (runs : List ScanRun) (w : World) {v : World}
      → is_ready w.item.state ≡ false
      → close_from_runs out cs succeeds archive now runs w ≡ Attempt.stored v
      → is_ready v.item.state ≡ false
  unfolding close_from_runs
  close_from_runs-unready [] w {v} u h = ground arith
  close_from_runs-unready (run ∷ runs) w {v} u h =
      let i = get_or run.id 0 in
      let fresh : World = record w { counts = [] } in
      elim (Bool-cases (awaits_scan w.item.state)) [
        | inr e ↦ ground arith
        | inl e ↦
            elim (Attempt-cases (
              close_work_item out cs succeeds archive now true run (jobs_of i archive.jobs)
                (sightings_of i archive.sightings) fresh)) [
                  | inr (c, q) ↦ absurd (ground arith)
                  | inl (x, q) ↦
                      close_from_runs-unready runs (record x { counts = w.counts }) {v = v}
                        (close_work_item-unready true run (jobs_of i archive.jobs)
                          (sightings_of i archive.sightings) fresh {v = x} u q)
                        (ground arith)
                ]
      ]
