-- ===== src/Engine/Archive.antt =====
-- The scans in the database and what the engine reads of them: `_later_run_saw`, `_family_ids`,
-- `_present_families` and `_is_ancestor` (hardening_loop/orchestrator/engine.py), `family_key`
-- (hardening_loop/orchestrator/closer.py).
use superset_hardening_loop.Prelude.{
  ℕ, String, Bool, true, false, ◌&&◌, ◌||◌, not, Option, none, some, List, [], ◌∷◌,
}
use superset_hardening_loop.Prelude.Tests.{ltb, leb, if◌then◌else◌}
use superset_hardening_loop.Prelude.Equality.{string_eq, nat_eq, same_option, ◌==◌}
use superset_hardening_loop.Prelude.Lists.{any}
use superset_hardening_loop.Domain.Scanner.{layer_eq, ecosystem_eq}
use superset_hardening_loop.Models.Scan.{ScanRun, ScanJob, Sighting}
use superset_hardening_loop.Models.Finding.{Finding}

pub record Archive : Type 0 where
  pub runs : List ScanRun
  pub jobs : List ScanJob
  pub sightings : List Sighting

abbrev pub run_with_id : ℕ → List ScanRun → Option ScanRun
run_with_id i [] = none
run_with_id i (r ∷ rs) = if same_option r.id (some i) then some r else run_with_id i rs

-- The rows of one run.
abbrev pub jobs_of : ℕ → List ScanJob → List ScanJob
jobs_of i [] = []
jobs_of i (j ∷ js) = if j.scan_run_id == i then j ∷ jobs_of i js else jobs_of i js

abbrev pub sightings_of : ℕ → List Sighting → List Sighting
sightings_of i [] = []
sightings_of i (s ∷ ss) = if s.scan_run_id == i then s ∷ sightings_of i ss else sightings_of i ss

-- `base == head`, or GitHub's comparison of the two; `none` is a failed call.
unfoldable pub is_ancestor : (String → String → Option String) → String → String → Bool
is_ancestor compare base head = base == head || elim (compare base head) [
  | none ↦ false
  | some status ↦ status == "ahead" || status == "identical"
]

-- `a > b` on two times of which the second may be missing.
abbrev pub is_later : ℕ → Option ScanRun → Bool
is_later t none = true
is_later t (some r) = elim r.finished_at [ none ↦ true | some u ↦ ltb u t ]

-- One round of the loop of `_later_run_saw`, for the run with the given id.
unfoldable pub weigh_run : Archive → ScanRun → ℕ → Option ℕ → Option ScanRun → Option ScanRun
weigh_run archive run finished none latest = latest
weigh_run archive run finished (some i) latest =
    if same_option run.id (some i) then latest else elim (run_with_id i archive.runs) [
      | none ↦ latest
      | some seen ↦ elim seen.finished_at [
        | none ↦ latest
        | some t ↦ if leb t finished || not (is_later t latest) then latest else some seen
      ]
    ]

-- Of two runs that finished at the same time the one that reported the finding is taken.
unfoldable pub later_run_saw : Archive → ScanRun → Finding → Option ScanRun
later_run_saw archive run f = elim run.finished_at [
  | none ↦ none
  | some finished ↦
      weigh_run archive run finished f.closed_by_run_id
        (weigh_run archive run finished f.last_seen_run_id none)
]

-- `family_key`, as equality of two findings' keys.
unfoldable pub same_family : Finding → Finding → Bool
same_family f g =
    f.vuln_id == g.vuln_id
    && f.ecosystem == g.ecosystem
    && same_option f.pkg_name g.pkg_name
    && f.layer == g.layer

unfoldable pub family_ids : List Finding → Finding → List ℕ
family_ids [] f = []
family_ids (g ∷ gs) f =
    let rest = family_ids gs f in
    if same_family g f then elim g.id [ none ↦ rest | some i ↦ i ∷ rest ] else rest

abbrev has_sighting : List Sighting → Finding → Bool
has_sighting ss g = elim g.id [
  | none ↦ false
  | some i ↦ any (λ s. s.present && s.finding_id == i) ss
]

-- `family_key(f) in self._present_families(db, sightings)`
unfoldable pub is_present_family : List Finding → List Sighting → Finding → Bool
is_present_family findings ss f = any (λ g. has_sighting ss g && same_family g f) findings
