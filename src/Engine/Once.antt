-- ===== src/Engine/Once.antt =====
-- A run is weighed once, and what a reappearance changes (`apply_scan_run`, `_regressions`,
-- hardening_loop/orchestrator/engine.py).
use superset_hardening_loop.Prelude.{
  ℕ, ◌≡◌, refl, sym, subst, ◌≢◌, inl, inr, ◌⊎◌, Bool, true, none, some, List, [], ◌∷◌, arith,
}
use superset_hardening_loop.Prelude.Tests.{Bool-cases, Option-cases}
use superset_hardening_loop.Prelude.Equality.{nat_eq}
use superset_hardening_loop.Domain.FindingState.{FindingState}
use superset_hardening_loop.Models.Scan.{ScanRun, ScanJob, Sighting}
use superset_hardening_loop.Models.Finding.{Finding}
use superset_hardening_loop.Lifecycle.Finding.{
  FindingEvent, finding_transitions, next_finding_state,
}
use superset_hardening_loop.Vex.{CharClasses}
use superset_hardening_loop.Closer.Validity.{Outside}
use superset_hardening_loop.Engine.World.{Call, Attempt, Attempt-cases}
use superset_hardening_loop.Engine.Apply.{apply_finding_event}
use superset_hardening_loop.Engine.Archive.{Archive, run_with_id}
use superset_hardening_loop.Engine.Database.{Entry, Ledger}
use superset_hardening_loop.Engine.Rescan.{Store, Applied, mark_applied, apply_scan_run}
use superset_hardening_loop.Engine.Regress.{regresses, regress_one, regressions}

marked_run :
    (now i : ℕ) (rs : List ScanRun) {r : ScanRun}
    → run_with_id i rs ≡ some r
    → run_with_id i (mark_applied now i rs) ≡ some (record r { closure_applied_at = some now })
marked_run now i [] {r} h = cc
marked_run now i (x ∷ rs) {r} h = ground (arith, marked_run now i rs {r = r})

-- A run that has been applied is not weighed again, whatever happens on GitHub in the meantime.
pub applied_once :
    (out : Outside) (cs : CharClasses) (succeeds : Call → Bool) (now run_id : ℕ) (s : Store)
    {t : Store} (again : Call → Bool) (later : ℕ)
    → apply_scan_run out cs succeeds now run_id s ≡ Applied.applied t
    → apply_scan_run out cs again later run_id t ≡ Applied.already
unfolding apply_scan_run
applied_once out cs succeeds now run_id s {t} again later h =
    elim (Option-cases (run_with_id run_id s.archive.runs)) [
      | inl e ↦ absurd (ground arith)
      | inr (run, e) ↦ ground (arith, marked_run now run_id s.archive.runs {r = run} e)
    ]

reappeared_state :
    (s : FindingState)
    → ((s ≡ FindingState.fixed)
        × (finding_transitions s FindingEvent.reappeared ≡ some FindingState.regression))
      ⊎ ((s ≢ FindingState.fixed) × (finding_transitions s FindingEvent.reappeared ≡ none))
unfolding finding_transitions
reappeared_state FindingState.fixed = inl (refl, refl)
reappeared_state FindingState.opened = inr (cc, refl)
reappeared_state FindingState.unclassified = inr (cc, refl)
reappeared_state FindingState.grouped = inr (cc, refl)
reappeared_state FindingState.in_remediation = inr (cc, refl)
reappeared_state FindingState.awaiting_rescan = inr (cc, refl)
reappeared_state FindingState.approved_disposition = inr (cc, refl)
reappeared_state FindingState.scanner_disagreement_resolved = inr (cc, refl)
reappeared_state FindingState.regression = inr (cc, refl)
reappeared_state FindingState.human_blocked = inr (cc, refl)

module _ (out : Outside) (cs : CharClasses) (succeeds : Call → Bool) (archive : Archive) (now : ℕ)
    (entries : List Entry) (everything : List Finding) (run : ScanRun) (jobs : List ScanJob)
    (sightings : List Sighting) where
  -- A finding is left alone, or it was fixed, regresses in this run and is freed from its work item.
  abbrev pub Reappears : Finding → Finding → Type 0
  Reappears f g =
      (g ≡ f)
      ⊎ ((f.state ≡ FindingState.fixed)
          × (regresses out cs succeeds archive now entries everything run jobs sightings f ≡ true)
          × (g.state ≡ FindingState.regression)
          × (g.work_item_id ≡ none))

  regress_one-Reappears :
      (f : Finding) (l : Ledger) {r : Finding × Ledger}
      → regress_one out cs succeeds archive now entries everything run jobs sightings f l
        ≡ Attempt.stored r
      → Reappears f r.0
  unfolding regress_one apply_finding_event next_finding_state
  regress_one-Reappears f l {r} h =
      elim (Bool-cases
        (regresses out cs succeeds archive now entries everything run jobs sightings f)) [
          | inr e ↦ inl (ground arith)
          | inl e ↦ elim (reappeared_state f.state) [
            | inr (other, stuck) ↦ inl (ground arith)
            | inl (fixed, moves) ↦
                let freed : (r.0.state ≡ FindingState.regression) × (r.0.work_item_id ≡ none) =
                  ground arith in
                inr ((fixed, e, freed.0, freed.1))
          ]
        ]

  abbrev pub AllReappear : List Finding → List Finding → Type 0
  AllReappear [] [] = Unit
  AllReappear (f ∷ fs) (g ∷ gs) = Reappears f g × AllReappear fs gs
  AllReappear _ _ = ⊥

  -- A reappearance changes a finding only if it was `fixed`: it becomes a regression and loses its work
  -- item. Every other finding stays as it is, also one that was closed by an approved disposition or by
  -- a resolved disagreement and that the run shows without suppression.
  pub regressions_only_fixed :
      (fs : List Finding) (l : Ledger) {r : List Finding × Ledger}
      → regressions out cs succeeds archive now entries everything run jobs sightings fs l
        ≡ Attempt.stored r
      → AllReappear fs r.0
  unfolding regressions
  regressions_only_fixed [] l {r} h =
      let e : r ≡ ([], l) = ground arith in subst (λ q. AllReappear [] q.0) (sym e) tt
  regressions_only_fixed (f ∷ fs) l {r} h =
      elim (Attempt-cases
        (regress_one out cs succeeds archive now entries everything run jobs sightings f l)) [
          | inr (c, e) ↦ absurd (ground arith)
          | inl (one, e) ↦
              elim (Attempt-cases (
                regressions out cs succeeds archive now entries everything run jobs sightings fs
                  one.1)) [
                    | inr (c, q) ↦ absurd (ground arith)
                    | inl (rest, q) ↦
                        let same : r ≡ (one.0 ∷ rest.0, rest.1) = ground arith in
                        subst (λ p. AllReappear (f ∷ fs) p.0) (sym same)
                          ((
                            regress_one-Reappears f l {r = one} e,
                            regressions_only_fixed fs one.1 {r = rest} q,
                          ))
                  ]
        ]
