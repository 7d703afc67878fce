-- ===== src/Closer/Outcome.antt =====
-- What each closing outcome rests on (hardening_loop/orchestrator/closer.py).
use superset_hardening_loop.Prelude.{
  ℕ, String, ◌≡◌, refl, ap, ◌∙◌, ◌↔◌, ◌≢◌, Bool, true, false, ◌&&◌, ◌||◌, Option, some, List, [],
  ◌∷◌, arith,
}
use superset_hardening_loop.Prelude.Tests.{if◌then◌else◌, get_or}
use superset_hardening_loop.Prelude.Equality.{◌==◌}
use superset_hardening_loop.Prelude.Lists.{any}
use superset_hardening_loop.Prelude.Dict.{Dict, lookup, lookup-insert}
use superset_hardening_loop.Domain.Scanner.{Scanner, ScanMode, scanner_eq, in_config_layers}
use superset_hardening_loop.Models.Scan.{ScanRun, Sighting}
use superset_hardening_loop.Models.Finding.{Finding}
use superset_hardening_loop.Vex.{CharClasses, Checked}
use superset_hardening_loop.Closer.Validity.{RunValidity, original_detectors}
use superset_hardening_loop.Closer.Decide.{
  ClosingOutcome, SightingView, in_family, of_run, note, sight, sightings_from, sightings_for, seen,
  decide_present, decide_outcome,
}

or_assoc : (a b c : Bool) → (a || b) || c ≡ a || (b || c)
or_assoc true b c = refl
or_assoc false b c = refl

abbrev pub is_raw : ScanMode → Bool
is_raw ScanMode.raw = true
is_raw ScanMode.policy = false

-- The sighting says that this scanner, run raw in this run, reported the family of the finding.
abbrev pub reports : Finding → ScanRun → List ℕ → Scanner → Sighting → Bool
reports f run family_ids d s =
    (in_family f family_ids s.finding_id && of_run run s.scan_run_id)
    && (is_raw s.mode && ((s.scanner == d) && s.present))

seen-note_cases :
    (s d : Scanner) (p : Bool) (m : Dict Scanner Bool)
    → (if s == d then seen m s || p else seen m d) ≡ seen m d || ((s == d) && p)
seen-note_cases Scanner.trivy Scanner.trivy p m = refl
seen-note_cases Scanner.trivy Scanner.grype p m = ground arith
seen-note_cases Scanner.grype Scanner.trivy p m = ground arith
seen-note_cases Scanner.grype Scanner.grype p m = refl

seen-if :
    (b c : Bool) (o : Option Bool)
    → get_or (if b then some c else o) false ≡ (if b then c else get_or o false)
seen-if true c o = refl
seen-if false c o = refl

seen-note :
    (s d : Scanner) (p : Bool) (m : Dict Scanner Bool)
    → seen (note s p m) d ≡ seen m d || ((s == d) && p)
seen-note s d p m =
    ap (λ (o : Option Bool). get_or o false) (lookup-insert s d (get_or (lookup s m) false || p) m)
    ∙ seen-if (s == d) (seen m s || p) (lookup d m)
    ∙ seen-note_cases s d p m

sight_mode :
    (mode : ScanMode) (b : Bool) (s d : Scanner) (p : Bool) (view : SightingView)
    → seen
        (if b
          then elim mode [
            | ScanMode.raw ↦ record view { raw_present = note s p view.raw_present }
            | ScanMode.policy ↦ record view { policy_present = note s p view.policy_present }
          ]
          else view).raw_present
        d
      ≡ seen view.raw_present d || (b && (is_raw mode && ((s == d) && p)))
sight_mode ScanMode.raw true s d p view = seen-note s d p view.raw_present
sight_mode ScanMode.policy true s d p view = ground arith
sight_mode mode false s d p view = ground arith

seen-sight :
    (f : Finding) (run : ScanRun) (ids : List ℕ) (s : Sighting) (view : SightingView) (d : Scanner)
    → seen (sight f run ids s view).raw_present d ≡ seen view.raw_present d || reports f run ids d s
unfolding sight
seen-sight f run ids s view d =
    sight_mode s.mode (in_family f ids s.finding_id && of_run run s.scan_run_id) s.scanner d
      s.present view

seen-sightings_from :
    (f : Finding) (run : ScanRun) (ids : List ℕ) (ss : List Sighting) (view : SightingView)
    (d : Scanner)
    → seen (sightings_from f run ids ss view).raw_present d
      ≡ seen view.raw_present d || any (reports f run ids d) ss
unfolding sightings_from
seen-sightings_from f run ids [] view d = ground arith
seen-sightings_from f run ids (s ∷ ss) view d =
    seen-sightings_from f run ids ss (sight f run ids s view) d
    ∙ ap (λ (b : Bool). b || any (reports f run ids d) ss) (seen-sight f run ids s view d)
    ∙ or_assoc (seen view.raw_present d) (reports f run ids d s) (any (reports f run ids d) ss)

-- The view of a run shows a scanner's raw report exactly when the run has a raw sighting of that
-- scanner that is present and belongs to the finding or its family.
pub seen-sightings_for :
    (f : Finding) (run : ScanRun) (sightings : List Sighting) (family_ids : List ℕ) (d : Scanner)
    → seen (sightings_for f run sightings family_ids).raw_present d
      ≡ any (reports f run family_ids d) sightings
unfolding sightings_for
seen-sightings_for f run sightings family_ids d = seen-sightings_from f run family_ids sightings _ d

-- No original detector, or for configuration not Trivy, reported the finding.
abbrev pub IsAbsent : Finding → SightingView → Type 0
IsAbsent f view =
    (if in_config_layers f.layer
      then seen view.raw_present Scanner.trivy
      else any (seen view.raw_present) (original_detectors f))
    ≡ false

module _ (cs : CharClasses) where
  decide_present_cases :
      (f : Finding) (run : ScanRun) (view : SightingView) (by_human : Bool)
      (issue_url : Option String) {o : ClosingOutcome}
      → decide_present cs f run view by_human issue_url ≡ Checked.ok o
      → (o ≢ ClosingOutcome.fixed)
        × (o ≢ ClosingOutcome.regression)
        × (o ≢ ClosingOutcome.not_applicable)
  unfolding decide_present
  decide_present_cases f run view by_human issue_url h = ground arith

  -- A finding is decided fixed exactly when the run is valid and shows it absent.
  pub decide_outcome_fixed :
      (f : Finding) (run : ScanRun) (view : SightingView) (validity : RunValidity) (by_human : Bool)
      (issue_url : Option String) (was_closed : Bool)
      → (decide_outcome cs f run view validity by_human issue_url was_closed
          ≡ Checked.ok ClosingOutcome.fixed)
        ↔ ((validity.valid ≡ true) × IsAbsent f view)
  unfolding decide_outcome
  decide_outcome_fixed f run view validity by_human issue_url was_closed = (
    λ h.
        ground
          (arith, decide_present_cases f run view by_human issue_url {o = ClosingOutcome.fixed}),
    λ h. ground arith,
  )

  -- A finding is decided a regression exactly when the run is valid and does not show it absent, and it
  -- was closed before.
  pub decide_outcome_regression :
      (f : Finding) (run : ScanRun) (view : SightingView) (validity : RunValidity) (by_human : Bool)
      (issue_url : Option String) (was_closed : Bool)
      → (decide_outcome cs f run view validity by_human issue_url was_closed
          ≡ Checked.ok ClosingOutcome.regression)
        ↔ ((validity.valid ≡ true) × (¬ IsAbsent f view) × (was_closed ≡ true))
  unfolding decide_outcome
  decide_outcome_regression f run view validity by_human issue_url was_closed = (
    λ h.
        ground (
          arith,
          decide_present_cases f run view by_human issue_url {o = ClosingOutcome.regression},
        ),
    λ h. ground arith,
  )
