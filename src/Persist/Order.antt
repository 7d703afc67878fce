-- ===== src/Persist/Order.antt =====
-- In which order runs are ingested does not matter to what a finding says (hardening_loop/ingest/persist.py).
use superset_hardening_loop.Prelude.{
  ℕ, ◌<◌, ◌≡◌, ◌≢◌, sym, ap, ◌∙◌, inl, inr, true, false, Option, none, some, List, arith,
}
use superset_hardening_loop.Prelude.Tests.{ltb, if◌then◌else◌, Bool-cases}
use superset_hardening_loop.Prelude.Equality.{string_eq, nat_eq, ◌==◌}
use superset_hardening_loop.Models.Scan.{ScanRun}
use superset_hardening_loop.Engine.Archive.{run_with_id}
use superset_hardening_loop.Persist.{FindingRow, Report, finished_before, refresh}

-- When the stored run of an id finished.
abbrev pub finish_of : ℕ → List ScanRun → Option ℕ
finish_of i runs = elim (run_with_id i runs) [ none ↦ none | some r ↦ r.finished_at ]

finished_before-finish_of :
    (runs : List ScanRun) (i t other : ℕ)
    → finished_before runs i (some t) other ≡ (
        if other == i
        then false
        else elim (finish_of other runs) [ none ↦ false | some u ↦ ltb t u ])
unfolding finished_before
finished_before-finish_of runs i t other = ground arith

-- The earlier of two runs finished before the later one, and before all that the later one did.
module _ (runs : List ScanRun) (a b ta tb : ℕ) (ha : finish_of a runs ≡ some ta)
    (hb : finish_of b runs ≡ some tb) (lt : ta < tb) where
  runs_apart : ((b == a) ≡ false) × ((a == b) ≡ false)
  runs_apart =
      let differ : a ≢ b = λ e.
        let same : some ta ≡ some tb = sym ha ∙ ap (λ i. finish_of i runs) e ∙ hb in
        absurd (ground arith) in
      (
        elim (Bool-cases (b == a)) [
          | inr e ↦ e
          | inl e ↦ absurd (differ (sym ((nat_eq.agree_iff b a).0 e)))
        ],
        elim (Bool-cases (a == b)) [
          | inr e ↦ e
          | inl e ↦ absurd (differ ((nat_eq.agree_iff a b).0 e))
        ],
      )

  earlier_before : finished_before runs a (some ta) b ≡ true
  earlier_before = ground (arith, finished_before-finish_of runs a ta b, runs_apart)

  later_not_before : finished_before runs b (some tb) a ≡ false
  later_not_before = ground (arith, finished_before-finish_of runs b tb a, runs_apart)

  before_both :
      (o : ℕ)
      → finished_before runs b (some tb) o ≡ true
      → finished_before runs a (some ta) o ≡ true
  before_both o h =
      let early = finished_before-finish_of runs a ta o in
      let late = finished_before-finish_of runs b tb o in
      elim (Bool-cases (o == a)) [
        | inl e ↦
            let at : finish_of o runs ≡ some ta =
              ap (λ i. finish_of i runs) ((nat_eq.agree_iff o a).0 e) ∙ ha in
            absurd (ground (arith, late))
        | inr e ↦ ground (arith, early, late)
      ]

-- What the two orders agree on.
abbrev pub SaysTheSame : FindingRow → FindingRow → Type 0
SaysTheSame x y =
    (x.description ≡ y.description)
    × (x.last_seen_run_id ≡ y.last_seen_run_id)
    × (x.first_seen_run_id ≡ y.first_seen_run_id)

-- Two stored runs that finished at different times leave the same description of a finding, and the same
-- first and last run that saw it, in whichever order they are ingested.
pub refresh_order :
    (runs : List ScanRun) (a b ta tb ts us : ℕ) (ra rb : Report) (row : FindingRow)
    → finish_of a runs ≡ some ta
    → finish_of b runs ≡ some tb
    → ta < tb
    → SaysTheSame
        (refresh runs b (some tb) us rb (refresh runs a (some ta) ts ra row))
        (refresh runs a (some ta) ts ra (refresh runs b (some tb) us rb row))
unfolding refresh
refresh_order runs a b ta tb ts us ra rb row ha hb lt = ground (
  arith,
  earlier_before runs a b ta tb ha hb lt,
  later_not_before runs a b ta tb ha hb lt,
  before_both runs a b ta tb ha hb lt row.last_seen_run_id,
  before_both runs a b ta tb ha hb lt row.first_seen_run_id,
)
