-- ===== src/Engine/Verified.antt =====
-- When a scan verifies a work item (`_close_work_item`, hardening_loop/orchestrator/engine.py).
use superset_hardening_loop.Prelude.{
  ℕ, String, ◌≡◌, ◌≢◌, ◌∙◌, inl, inr, Bool, true, false, some, List, [], ◌∷◌, arith,
}
use superset_hardening_loop.Prelude.Tests.{if◌then◌else◌, Bool-cases}
use superset_hardening_loop.Prelude.Equality.{nat_eq}
use superset_hardening_loop.Prelude.Lists.{is_empty, any, all}
use superset_hardening_loop.Prelude.Strings.{concat}
use superset_hardening_loop.Domain.WorkItemState.{WorkItemState}
use superset_hardening_loop.Domain.FindingState.{FindingState, in_closing}
use superset_hardening_loop.Domain.LifecycleLevel.{LifecycleLevel}
use superset_hardening_loop.Models.Scan.{ScanRun, ScanJob, Sighting}
use superset_hardening_loop.Lifecycle.WorkItem.{WorkItemEvent}
use superset_hardening_loop.Vex.{CharClasses}
use superset_hardening_loop.Closer.Validity.{Outside}
use superset_hardening_loop.Closer.Decide.{issue_may_close}
use superset_hardening_loop.Engine.World.{Call, World, Outcome, Attempt}
use superset_hardening_loop.Engine.Apply.{apply_event}
use superset_hardening_loop.Engine.Levels.{raise_level}
use superset_hardening_loop.Engine.Laws.{apply_event-state}
use superset_hardening_loop.Engine.Archive.{Archive}
use superset_hardening_loop.Engine.Judging.{
  Judgement, Judged, member_states, judgements, judge_members, after_judging, is_not_applicable,
  is_merged, still_reason, invalid_reason, evaluated_reason,
}
use superset_hardening_loop.Engine.Closing.{verify, report_still, conclude, close_work_item}
use superset_hardening_loop.Engine.Judged.{
  findings-apply_event, is_verified, started_not_verified, shown_not_verified, states_of,
  Checked-cases, judge_members-IsJudged, IsJudged-states_of, states_of_same,
}

-- A world in which neither the findings nor the item's id have changed.
abbrev pub Keeps : World → World → Type 0
Keeps w v = (v.findings ≡ w.findings) × (v.item.id ≡ w.item.id)

findings-raise_level :
    (now : ℕ) (level : LifecycleLevel) (why : String) (w : World)
    → Keeps w (raise_level now level why w)
      × ((raise_level now level why w).item.state ≡ w.item.state)
unfolding raise_level
findings-raise_level now level why w = ground arith

module _ (succeeds : Call → Bool) (now : ℕ) where
  pub verify-Keeps :
      (has_row : Bool) (run : ScanRun) (states : List FindingState) (w : World) {v : World}
      → verify succeeds now has_row run states w ≡ Attempt.stored v
      → Keeps w v
  unfolding verify
  verify-Keeps has_row run states w h =
      let w0 = record w { item = record w.item { verified_at = some now } } in
      let why = concat ("run " ∷ run.external_run_id ∷ []) in
      let w1 = apply_event succeeds now WorkItemEvent.rescan_verified why "scanner" w0 in
      ground (
        arith,
        findings-apply_event succeeds now WorkItemEvent.rescan_verified why "scanner" w0,
        findings-raise_level now LifecycleLevel.rescan_verified run.external_run_id w1,
      )

  report_still_unverified :
      (run : ScanRun) (judged : Judged) (w : World)
      → is_verified w.item.state ≡ false
      → is_verified (report_still succeeds now run judged w).item.state ≡ false
  unfolding report_still
  report_still_unverified run judged w h = ground (
    arith,
    apply_event-state succeeds now WorkItemEvent.rescan_shows_present (still_reason run judged)
        "scanner" w,
    shown_not_verified w.item.state h,
  )

  started_unverified :
      (reason : String) (w : World)
      → is_verified w.item.state ≡ false
      → is_verified
          (apply_event succeeds now WorkItemEvent.rescan_started reason "controller" w).item.state
        ≡ false
  started_unverified reason w h = ground (
    arith,
    apply_event-state succeeds now WorkItemEvent.rescan_started reason "controller" w,
    started_not_verified w.item.state h,
  )

  -- What is left to do once the run applies to every member.
  abbrev pub finish : Bool → ScanRun → Judged → World → Outcome
  finish has_row run judged w =
      if issue_may_close (member_states judged)
      then verify succeeds now has_row run (member_states judged) w
      else Attempt.stored (report_still succeeds now run judged w)

  finish_verified :
      (has_row : Bool) (run : ScanRun) (judged : Judged) (w : World) {v : World}
      → finish has_row run judged w ≡ Attempt.stored v
      → is_verified w.item.state ≡ false
      → is_verified v.item.state ≡ true
      → (issue_may_close (member_states judged) ≡ true) × Keeps w v
  finish_verified has_row run judged w {v} h u e =
      elim (Bool-cases (issue_may_close (member_states judged))) [
        | inl c ↦ (c, verify-Keeps has_row run (member_states judged) w {v = v} (ground arith))
        | inr c ↦ absurd (ground (arith, report_still_unverified run judged w u))
      ]

  conclude_verified :
      (has_row : Bool) (run : ScanRun) (judged : Judged) (w : World) {v : World}
      → conclude succeeds now has_row run judged w ≡ Attempt.stored v
      → is_verified w.item.state ≡ false
      → is_verified v.item.state ≡ true
      → (issue_may_close (member_states judged) ≡ true) × Keeps w v
  unfolding conclude
  conclude_verified has_row run judged w {v} h u e =
      let started =
        apply_event succeeds now WorkItemEvent.rescan_started (evaluated_reason run) "controller"
          w in
      elim (Bool-cases (any (λ (j : Judgement). is_not_applicable j.outcome) (judgements judged))) [
        | inl n ↦ absurd (ground (arith, started_unverified (invalid_reason run judged) w u))
        | inr n ↦ elim (Bool-cases (is_merged w.item.state)) [
          | inl m ↦
              let (c, kept) =
                finish_verified has_row run judged started {v = v} (ground arith)
                  (started_unverified (evaluated_reason run) w u) e in
              let found =
                findings-apply_event succeeds now WorkItemEvent.rescan_started
                  (evaluated_reason run) "controller" w in
              (c, (kept.0 ∙ found.0, kept.1 ∙ found.1))
          | inr m ↦ finish_verified has_row run judged w {v = v} (ground arith) u e
        ]
      ]

issue_may_close_lem :
    (states : List FindingState)
    → issue_may_close states ≡ true
    → (is_empty states ≡ false) × (all in_closing states ≡ true)
unfolding issue_may_close
issue_may_close_lem states h = ground arith

-- A scan verifies a work item only if the item has findings and every one of them is closed.
pub close_work_item_verified :
    (out : Outside) (cs : CharClasses) (succeeds : Call → Bool) (archive : Archive) (now : ℕ)
    (has_row : Bool) (run : ScanRun) (jobs : List ScanJob) (sightings : List Sighting) (w : World)
    {v : World}
    → close_work_item out cs succeeds archive now has_row run jobs sightings w ≡ Attempt.stored v
    → w.item.state ≢ WorkItemState.verified
    → v.item.state ≡ WorkItemState.verified
    → (is_empty (states_of v.item v.findings) ≡ false)
      × (all in_closing (states_of v.item v.findings) ≡ true)
unfolding close_work_item
close_work_item_verified out cs succeeds archive now has_row run jobs sightings w {v} h u e =
    elim (Checked-cases
      (judge_members out cs archive now w.item w.findings run jobs sightings w.findings w.log)) [
        | inr (fault, q) ↦ absurd (ground arith)
        | inl (r, q) ↦
            let judged =
              judge_members-IsJudged out cs archive now w.item w.findings run jobs sightings
                w.findings w.log q in
            let (closed, kept) =
              conclude_verified succeeds now has_row run r.0 (after_judging w r.0 r.1) {v = v}
                (ground arith) (ground arith) (ground arith) in
            let states =
              IsJudged-states_of out cs archive now w.item w.findings run jobs sightings w.findings
                r.0 judged in
            issue_may_close_lem (states_of v.item v.findings)
              (ground (arith, states_of_same v.item w.item v.findings kept.1))
      ]
