-- ===== src/Engine/Rescan.antt =====
-- `apply_scan_run` (hardening_loop/orchestrator/engine.py): one ingested run weighed against the whole
-- database.
use superset_hardening_loop.Prelude.{ℕ, Bool, none, some, List, [], ◌∷◌}
use superset_hardening_loop.Prelude.Tests.{if◌then◌else◌}
use superset_hardening_loop.Prelude.Equality.{nat_eq, same_option}
use superset_hardening_loop.Prelude.Lists.{contains}
use superset_hardening_loop.Models.Scan.{ScanRun, ScanJob, Sighting}
use superset_hardening_loop.Vex.{CharClasses}
use superset_hardening_loop.Closer.Validity.{Outside}
use superset_hardening_loop.Engine.World.{Call, Attempt, ◌>>=◌}
use superset_hardening_loop.Engine.Archive.{Archive, run_with_id, jobs_of, sightings_of}
use superset_hardening_loop.Engine.Closing.{close_work_item}
use superset_hardening_loop.Engine.Database.{Database, awaits_scan, pass}
use superset_hardening_loop.Engine.Regress.{regressions}
use superset_hardening_loop.Engine.Drift.{drift, supersede}

module _ (out : Outside) (cs : CharClasses) (succeeds : Call → Bool) (archive : Archive)
    (now : ℕ) where
  -- The three parts of an evaluation, in their order.
  unfoldable pub evaluate_run : ScanRun → List ScanJob → List Sighting → Database → Attempt Database
  evaluate_run run jobs sightings db =
      pass (λ e. awaits_scan e.item.state)
        (λ has_row w. close_work_item out cs succeeds archive now has_row run jobs sightings w) db
        db.entries
      >>= λ d.
          regressions out cs succeeds archive now d.entries d.findings run jobs sightings d.findings
            d.ledger
          >>= λ r.
              let (gs, l, touched) =
                drift out cs succeeds archive now d.entries r.0 run jobs sightings r.0 r.1 [] in
              pass (λ e. contains touched e.item.id) (λ has_row w. supersede succeeds now run w)
                (record { entries = d.entries; findings = gs; ledger = l }) d.entries

-- The database with its scans.
pub record Store : Type 0 where
  pub archive : Archive
  pub database : Database

pub data Applied : Type 0 where
  not_found : Applied
  already : Applied
  applied : Store → Applied
  failed : List Call → Applied

-- `run.closure_applied_at = now` on the stored run.
abbrev pub mark_applied : ℕ → ℕ → List ScanRun → List ScanRun
mark_applied now i [] = []
mark_applied now i (r ∷ rs) =
    if same_option r.id (some i)
    then record r { closure_applied_at = some now } ∷ rs
    else r ∷ mark_applied now i rs

unfoldable pub apply_scan_run : Outside → CharClasses → (Call → Bool) → ℕ → ℕ → Store → Applied
apply_scan_run out cs succeeds now run_id s = elim (run_with_id run_id s.archive.runs) [
  | none ↦ Applied.not_found
  | some run ↦ elim run.closure_applied_at [
    | some t ↦ Applied.already
    | none ↦
        elim (evaluate_run out cs succeeds s.archive now run (jobs_of run_id s.archive.jobs)
          (sightings_of run_id s.archive.sightings) s.database) [
            | Attempt.rolled_back calls ↦ Applied.failed calls
            | Attempt.stored d ↦ Applied.applied (record {
              archive = record s.archive { runs = mark_applied now run_id s.archive.runs };
              database = d;
            })
          ]
  ]
]
