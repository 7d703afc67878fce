-- ===== src/Engine/Settling.antt =====
-- Where the events of a closing run can lead a finding (`_close_work_item`,
-- hardening_loop/orchestrator/engine.py).
use superset_hardening_loop.Prelude.{
  ℕ, String, ◌≡◌, refl, inl, ◌⊎◌, Bool, true, false, Option, none, some, List, [], ◌∷◌, arith,
}
use superset_hardening_loop.Prelude.Tests.{get_or}
use superset_hardening_loop.Prelude.Strings.{concat}
use superset_hardening_loop.Domain.FindingState.{FindingState, in_closing}
use superset_hardening_loop.Models.Scan.{ScanRun}
use superset_hardening_loop.Models.Finding.{Finding}
use superset_hardening_loop.Lifecycle.Finding.{
  FindingEvent, finding_transitions, next_finding_state,
}
use superset_hardening_loop.Vex.{CharClasses, Checked}
use superset_hardening_loop.Closer.Validity.{RunValidity}
use superset_hardening_loop.Closer.Decide.{
  ClosingOutcome, SightingView, decide_present, decide_outcome,
}
use superset_hardening_loop.Engine.World.{Event}
use superset_hardening_loop.Engine.Apply.{Traced, apply_finding_event}
use superset_hardening_loop.Engine.Judging.{Judgement, settle, block_one, finding_id}

-- The state after an event: the transition's, or the old one.
apply_finding_event-state :
    (now id : ℕ) (event : FindingEvent) (reason actor : String) (run_id : Option ℕ) (t : Traced)
    → (apply_finding_event now id event reason actor run_id t).1.finding.state
      ≡ get_or (finding_transitions t.finding.state event) t.finding.state
unfolding apply_finding_event next_finding_state
apply_finding_event-state now id event reason actor run_id t = ground arith

-- Where each closing event leads, if it is valid.
absent_state :
    (s : FindingState)
    → (get_or (finding_transitions s FindingEvent.closing_absent) s ≡ s)
      ⊎ (get_or (finding_transitions s FindingEvent.closing_absent) s ≡ FindingState.fixed)
unfolding finding_transitions
absent_state s = ground arith

vex_state :
    (s : FindingState)
    → (get_or (finding_transitions s FindingEvent.closing_vex) s ≡ s)
      ⊎ (get_or (finding_transitions s FindingEvent.closing_vex) s
          ≡ FindingState.approved_disposition)
unfolding finding_transitions
vex_state s = ground arith

resolved_state :
    (s : FindingState)
    → (get_or (finding_transitions s FindingEvent.disagreement_resolved) s ≡ s)
      ⊎ (get_or (finding_transitions s FindingEvent.disagreement_resolved) s
          ≡ FindingState.scanner_disagreement_resolved)
unfolding finding_transitions
resolved_state s = ground arith

blocked_state :
    (s : FindingState)
    → (get_or (finding_transitions s FindingEvent.human_blocked) s ≡ s)
      ⊎ (in_closing (get_or (finding_transitions s FindingEvent.human_blocked) s) ≡ false)
unfolding finding_transitions
blocked_state s = ground arith

-- Which states an outcome can set.
abbrev pub Sets : ClosingOutcome → FindingState → Type 0
Sets ClosingOutcome.fixed s = s ≡ FindingState.fixed
Sets ClosingOutcome.approved_disposition s = s ≡ FindingState.approved_disposition
Sets ClosingOutcome.scanner_disagreement_resolved s = s ≡ FindingState.scanner_disagreement_resolved
Sets _ s = ⊥

pub settle_state :
    (now : ℕ) (run : ScanRun) (o : ClosingOutcome) (f : Finding) (log : List Event)
    → ((settle now run o f log).finding.state ≡ f.state)
      ⊎ Sets o (settle now run o f log).finding.state
unfolding settle
settle_state now run ClosingOutcome.fixed f log = ground (
  arith,
  absent_state f.state,
  apply_finding_event-state now (finding_id f) FindingEvent.closing_absent
      (concat ("absent in run " ∷ run.external_run_id ∷ [])) "scanner" run.id
      (record { finding = f; log = log }),
)
settle_state now run ClosingOutcome.approved_disposition f log = ground (
  arith,
  vex_state f.state,
  apply_finding_event-state now (finding_id f) FindingEvent.closing_vex
      (concat ("approved VEX in run " ∷ run.external_run_id ∷ [])) "scanner" run.id
      (record { finding = f; log = log }),
)
settle_state now run ClosingOutcome.scanner_disagreement_resolved f log = ground (
  arith,
  resolved_state f.state,
  apply_finding_event-state now (finding_id f) FindingEvent.disagreement_resolved
      (concat ("single-scanner in run " ∷ run.external_run_id ∷ [])) "human" run.id
      (record { finding = f; log = log }),
)
settle_state now run ClosingOutcome.regression f log = inl refl
settle_state now run ClosingOutcome.human_blocked f log = inl refl
settle_state now run ClosingOutcome.still_present f log = inl refl
settle_state now run ClosingOutcome.not_applicable f log = inl refl

pub block_one_state :
    (now : ℕ) (run : ScanRun) (g : Finding) (j : Option Judgement) (log : List Event)
    → ((block_one now run g j log).finding.state ≡ g.state)
      ⊎ (in_closing (block_one now run g j log).finding.state ≡ false)
unfolding block_one
block_one_state now run g none log = inl refl
block_one_state now run g (some j) log =
    let why = concat ("present after merge in run " ∷ run.external_run_id ∷ []) in
    ground (
      arith,
      blocked_state g.state,
      apply_finding_event-state now (finding_id g) FindingEvent.human_blocked why "scanner" none
          (record { finding = g; log = log }),
    )

pub resolved_only_if :
    (cs : CharClasses) (f : Finding) (run : ScanRun) (view : SightingView) (validity : RunValidity)
    (by_human : Bool) (issue_url : Option String) (was_closed : Bool)
    → decide_outcome cs f run view validity by_human issue_url was_closed
      ≡ Checked.ok ClosingOutcome.scanner_disagreement_resolved
    → (validity.valid ≡ true) × (by_human ≡ true)
unfolding decide_outcome decide_present
resolved_only_if cs f run view validity by_human issue_url was_closed h = ground arith
