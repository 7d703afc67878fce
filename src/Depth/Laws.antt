-- ===== src/Depth/Laws.antt =====
-- What it takes to earn a rung (hardening_loop/verification.py).
use superset_hardening_loop.Prelude.{
  String, ◌≡◌, refl, ◌≢◌, ◌↔◌, inl, inr, Bool, true, false, ◌&&◌, ◌||◌, not, Option, none, some,
  List, [], ◌∷◌, map, arith,
}
use superset_hardening_loop.Prelude.Tests.{Option-cases}
use superset_hardening_loop.Prelude.Lists.{any, all, keep_if, is_empty}
use superset_hardening_loop.Depth.Ladder.{
  VerificationDepth, all_depths, default_ladder, CheckStatus, Component, CheckRun,
}
use superset_hardening_loop.Depth.Evaluate.{
  matching_runs, is_completed, is_success, is_skipped, first_url, concluded_status, matched_status,
  component_status, is_failed_status, is_pending_status, is_unavailable_status, is_passed_status,
  rung_status, component_record, rung_records, statuses_of, Ladder, rung, highest_from,
  highest_passed, evaluate, evaluate_from,
}

-- A run is completed with success.
abbrev pub is_green : CheckRun → Bool
is_green r = is_completed r && is_success r

all_green :
    (rs : List CheckRun)
    → all is_green rs ≡ not (any (λ r. not (is_completed r)) rs) && all is_success rs
all_green [] = refl
all_green (r ∷ rs) = ground (arith, all_green rs)

none_failed :
    (rs : List CheckRun)
    → all is_success rs ≡ true
    → is_empty (keep_if (λ r. not (is_success r || is_skipped r)) rs) ≡ true
none_failed [] h = refl
none_failed (r ∷ rs) h = ground (arith, none_failed rs)

skipped_empty :
    (rs : List CheckRun) → is_empty (keep_if (λ r. not (is_success r)) rs) ≡ all is_success rs
skipped_empty [] = refl
skipped_empty (r ∷ rs) = ground (arith, skipped_empty rs)

some_success :
    (rs : List CheckRun)
    → is_empty rs ≡ false
    → all is_success rs ≡ true
    → is_empty (keep_if is_success rs) ≡ false
some_success [] e h = e
some_success (r ∷ rs) e h = ground arith

concluded_passed :
    (rs : List CheckRun) (url : Option String)
    → is_empty rs ≡ false
    → ((concluded_status rs url).0 ≡ CheckStatus.passed) ↔ (all is_success rs ≡ true)
unfolding concluded_status
concluded_passed rs url e = ground (arith, skipped_empty rs, some_success rs e, none_failed rs)

matched_passed :
    (check : String) (rs : List CheckRun)
    → ((matched_status check rs).0 ≡ CheckStatus.passed)
      ↔ ((is_empty rs ≡ false) × (all is_green rs ≡ true))
unfolding matched_status
matched_passed check rs = ground (arith, all_green rs, concluded_passed rs (first_url rs))

-- A check of the repository proves the component on this head: it has runs, and all are completed
-- with success.
abbrev pub IsEarned : List CheckRun → Component → Type 0
IsEarned runs comp =
    (check : String) × (comp.check ≡ some check)
    × (is_empty (matching_runs check runs) ≡ false)
    × (all is_green (matching_runs check runs) ≡ true)

abbrev pub AllEarned : List CheckRun → List Component → Type 0
AllEarned runs [] = Unit
AllEarned runs (comp ∷ comps) = IsEarned runs comp × AllEarned runs comps

component_record-IsEarned :
    (depth : VerificationDepth) (runs : List CheckRun) (comp : Component)
    → ((component_record depth runs comp).status ≡ CheckStatus.passed) ↔ IsEarned runs comp
unfolding component_record component_status
component_record-IsEarned depth runs comp = (
  λ h. elim (Option-cases comp.check) [
    | inl e ↦ ground arith
    | inr (check, e) ↦
        let (found, green) = (matched_passed check (matching_runs check runs)).0 (ground arith) in
        (check, e, found, green)
  ],
  λ h.
      let (check, e, found, green) = h in
      let proved = (matched_passed check (matching_runs check runs)).1 (found, green) in
      ground arith,
)

map-AllEarned :
    (depth : VerificationDepth) (runs : List CheckRun) (comps : List Component)
    → (all is_passed_status (statuses_of (map (component_record depth runs) comps)) ≡ true)
      ↔ AllEarned runs comps
map-AllEarned depth runs [] = (λ h. tt, λ h. refl)
map-AllEarned depth runs (comp ∷ comps) =
    ground (arith, component_record-IsEarned depth runs comp, map-AllEarned depth runs comps)

passed_excludes :
    (ss : List CheckStatus)
    → all is_passed_status ss ≡ true
    → (any is_failed_status ss ≡ false) × (any is_pending_status ss ≡ false)
passed_excludes [] h = (refl, refl)
passed_excludes (s ∷ ss) h = ground (arith, passed_excludes ss)

passed_is_available :
    (ss : List CheckStatus)
    → is_empty ss ≡ false
    → all is_passed_status ss ≡ true
    → all is_unavailable_status ss ≡ false
passed_is_available [] e h = cc
passed_is_available (s ∷ ss) e h = ground arith

rung_status_passed :
    (ss : List CheckStatus)
    → is_empty ss ≡ false
    → (rung_status ss ≡ CheckStatus.passed) ↔ (all is_passed_status ss ≡ true)
unfolding rung_status
rung_status_passed ss e = ground (arith, passed_excludes ss, passed_is_available ss e)

statuses_empty :
    (depth : VerificationDepth) (runs : List CheckRun) (comps : List Component)
    → is_empty (statuses_of (map (component_record depth runs) comps)) ≡ is_empty comps
statuses_empty depth runs [] = refl
statuses_empty depth runs (comp ∷ comps) = refl

-- A rung is passed exactly when the ladder asks something of it and each of its components has
-- check runs on this head that are all completed with success.
pub rung_passed :
    (ladder : Ladder) (runs : List CheckRun) (depth : VerificationDepth)
    → (rung ladder runs depth ≡ CheckStatus.passed)
      ↔ ((is_empty (ladder depth) ≡ false) × AllEarned runs (ladder depth))
unfolding rung rung_records
rung_passed ladder runs depth = ground (
  arith,
  statuses_empty depth runs (ladder depth),
  rung_status_passed (statuses_of (map (component_record depth runs) (ladder depth))),
  map-AllEarned depth runs (ladder depth),
)

-- On the repository's own ladder the rungs of the immutable image and of the canary are never
-- passed, whatever check runs a head has: each has a component that no check proves.
pub unproved_rungs :
    (runs : List CheckRun)
    → (rung default_ladder runs VerificationDepth.immutable_image_runtime ≢ CheckStatus.passed)
      × (rung default_ladder runs VerificationDepth.canary ≢ CheckStatus.passed)
unfolding default_ladder
unproved_rungs runs = (
  λ h.
      let earned =
        ((rung_passed default_ladder runs VerificationDepth.immutable_image_runtime).0 h).1 in
      let (check, e, found, green) = earned.1.0 in cc,
  λ h.
      let earned = ((rung_passed default_ladder runs VerificationDepth.canary).0 h).1 in
      let (check, e, found, green) = earned.0 in cc,
)

abbrev pub HoldsAll : Ladder → List CheckRun → List (VerificationDepth × CheckStatus) → Type 0
HoldsAll ladder runs [] = Unit
HoldsAll ladder runs ((d, s) ∷ rungs) = (s ≡ rung ladder runs d) × HoldsAll ladder runs rungs

evaluate_from-HoldsAll :
    (ladder : Ladder) (runs : List CheckRun) (ds : List VerificationDepth)
    → HoldsAll ladder runs (evaluate_from ladder runs ds).rungs
unfolding evaluate_from
evaluate_from-HoldsAll ladder runs [] = tt
evaluate_from-HoldsAll ladder runs (d ∷ ds) = (refl, evaluate_from-HoldsAll ladder runs ds)

-- A best rung so far, if any, is passed.
abbrev IsPassed : Ladder → List CheckRun → Option VerificationDepth → Type 0
IsPassed ladder runs none = Unit
IsPassed ladder runs (some d) = rung ladder runs d ≡ CheckStatus.passed

highest_from-IsPassed :
    (ladder : Ladder) (runs : List CheckRun) (rungs : List (VerificationDepth × CheckStatus))
    (best : Option VerificationDepth)
    → HoldsAll ladder runs rungs
    → IsPassed ladder runs best
    → IsPassed ladder runs (highest_from best rungs)
unfolding highest_from
highest_from-IsPassed ladder runs [] best h p = p
highest_from-IsPassed ladder runs ((d, s) ∷ rungs) best h p =
    highest_from-IsPassed ladder runs rungs _ h.1 (ground arith)

-- The depth reported for a head is a rung that it has passed.
pub highest_passed_sound :
    (ladder : Ladder) (runs : List CheckRun) {d : VerificationDepth}
    → highest_passed (evaluate runs ladder) ≡ some d
    → (is_empty (ladder d) ≡ false) × AllEarned runs (ladder d)
unfolding highest_passed evaluate
highest_passed_sound ladder runs {d} h =
    let p =
      highest_from-IsPassed ladder runs (evaluate_from ladder runs all_depths).rungs none
        (evaluate_from-HoldsAll ladder runs all_depths) tt in
    (rung_passed ladder runs d).0 (rw h at p)
