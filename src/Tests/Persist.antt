-- ===== src/Tests/Persist.antt =====
-- The theorems on ingested runs (hardening_loop/ingest/persist.py) at two runs of one finding.
use superset_hardening_loop.Prelude.{
  ◌≡◌, refl, arith, false, not, Option, none, some, List, [], ◌∷◌,
}
use superset_hardening_loop.Prelude.Tests.{is_some}
use superset_hardening_loop.Domain.Scanner.{ImageTarget}
use superset_hardening_loop.Domain.Kind.{Kind, Risk}
use superset_hardening_loop.Domain.FindingState.{FindingState}
use superset_hardening_loop.Models.Scan.{ScanRun}
use superset_hardening_loop.Classify.Rules.{Classification}
use superset_hardening_loop.Persist.{
  FindingRow, Report, finished_before, seen_state, refresh, open_finding, upsert_finding, row_of,
}
use superset_hardening_loop.Persist.Order.{SaysTheSame, refresh_order}
use superset_hardening_loop.Persist.Table.{
  Restates, entered, upsert_finding-row_of, refresh-Restates,
}
use superset_hardening_loop.Tests.Closing.{run}
use superset_hardening_loop.Tests.Triage.{fixable}

-- Run 3 finished at 20, run 4 at 40.
abbrev both_runs : List ScanRun
both_runs = run ∷ record run { id = some 4; finished_at = some 40 } ∷ []

abbrev classified : Option Kind → Classification
classified kind = record {
  kind = kind;
  risk = Risk.normal;
  bound_blocked = false;
  trace = "t";
  unclassified_reason = none;
}

abbrev report : Option Kind → Report
report kind = record {
  raw = record {
    image_target = ImageTarget.lean;
    platform = "linux/amd64";
    trivy_db_updated_at = some 5;
    grype_db_built_at = some 4;
  };
  finding = fixable;
  classification = classified kind;
}

abbrev upgrade : Report
upgrade = report (some Kind.dependency_upgrade)

-- Grouped into a work item after a run that is not stored any more.
abbrev grouped_row : FindingRow
grouped_row = record (open_finding 1 1 0 upgrade) { state = FindingState.grouped }

refresh_order_example :
    SaysTheSame
      (refresh both_runs 4
        (some 40)
        8
        upgrade
        (refresh both_runs 3 (some 20) 7 (report none) grouped_row))
      (refresh both_runs 3
        (some 20)
        7
        (report none)
        (refresh both_runs 4 (some 40) 8 upgrade grouped_row))
refresh_order_example =
    refresh_order both_runs 3 4 20 40 7 8 (report none) upgrade grouped_row refl refl (omega arith)

-- The state does depend on the order: in the order of the scans the finding loses its group.
order_changes_state :
    ((refresh both_runs 4
        (some 40)
        8
        upgrade
        (refresh both_runs 3 (some 20) 7 (report none) grouped_row)).state
      ≡ FindingState.opened)
    × ((refresh both_runs 3
          (some 20)
          7
          (report none)
          (refresh both_runs 4 (some 40) 8 upgrade grouped_row)).state
        ≡ FindingState.grouped)
unfolding refresh finished_before seen_state
order_changes_state = (refl, refl)

upsert_finding-row_of_example :
    (row_of fixable.dedupe_key
        (upsert_finding both_runs 4 (some 40) 8 upgrade 2 (grouped_row ∷ [])).0
      ≡ some (
          entered both_runs 4 (some 40) 8 upgrade 2 (row_of fixable.dedupe_key (grouped_row ∷ []))))
    × ((upsert_finding both_runs 4 (some 40) 8 upgrade 2 (grouped_row ∷ [])).1
        ≡ not (is_some (row_of fixable.dedupe_key (grouped_row ∷ []))))
    × (row_of "other" (upsert_finding both_runs 4 (some 40) 8 upgrade 2 (grouped_row ∷ [])).0
        ≡ row_of "other" (grouped_row ∷ []))
upsert_finding-row_of_example =
    upsert_finding-row_of both_runs 4 (some 40) 8 upgrade 2 (grouped_row ∷ []) "other" refl

abbrev fixed_row : FindingRow
fixed_row = record grouped_row { state = FindingState.fixed }

refresh-Restates_example :
    Restates fixed_row.state (refresh both_runs 4 (some 40) 8 (report none) fixed_row).state
    × ((refresh both_runs 4 (some 40) 8 (report none) fixed_row).opened_by_trivy
        ≡ fixed_row.opened_by_trivy)
    × ((refresh both_runs 4 (some 40) 8 (report none) fixed_row).opened_by_grype
        ≡ fixed_row.opened_by_grype)
    × ((refresh both_runs 4 (some 40) 8 (report none) fixed_row).opening_db_built_at
        ≡ fixed_row.opening_db_built_at)
refresh-Restates_example = refresh-Restates both_runs 4 (some 40) 8 (report none) fixed_row
