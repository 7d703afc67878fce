-- ===== src/Persist/Table.antt =====
-- `_upsert_finding` (hardening_loop/ingest/persist.py) on the table of findings, read as a map from keys.
use superset_hardening_loop.Prelude.{
  ℕ, String, ◌≡◌, refl, ap, ◌∙◌, inl, inr, ◌⊎◌, true, false, not, Option, none, some, List, [], ◌∷◌,
  arith,
}
use superset_hardening_loop.Prelude.Tests.{is_some, Bool-cases}
use superset_hardening_loop.Prelude.Equality.{string_eq, ◌==◌}
use superset_hardening_loop.Domain.FindingState.{FindingState, in_closing}
use superset_hardening_loop.Models.Scan.{ScanRun}
use superset_hardening_loop.Persist.{
  FindingRow, Report, seen_state, refresh, open_finding, upsert_finding, row_of,
}

-- The row that a run leaves under its key.
abbrev pub entered : List ScanRun → ℕ → Option ℕ → ℕ → Report → ℕ → Option FindingRow → FindingRow
entered runs run_id finished ts r free none = open_finding free run_id ts r
entered runs run_id finished ts r free (some row) = refresh runs run_id finished ts r row

-- The key of a finding never changes.
key-refresh :
    (runs : List ScanRun) (run_id : ℕ) (finished : Option ℕ) (ts : ℕ) (r : Report)
    (row : FindingRow)
    → (refresh runs run_id finished ts r row).dedupe_key ≡ row.dedupe_key
unfolding refresh
key-refresh runs run_id finished ts r row = ground arith

other_key : (a b c : String) → (a == b) ≡ true → (b == c) ≡ false → (a == c) ≡ false
other_key a b c e h = ap (λ x. x == c) ((string_eq.agree_iff a b).0 e) ∙ h

-- A run that is ingested changes the finding of one key and no other: it opens the finding if there is
-- none, says so, and refreshes it otherwise.
pub upsert_finding-row_of :
    (runs : List ScanRun) (run_id : ℕ) (finished : Option ℕ) (ts : ℕ) (r : Report) (free : ℕ)
    (rows : List FindingRow) (other : String)
    → (r.finding.dedupe_key == other) ≡ false
    → (row_of r.finding.dedupe_key (upsert_finding runs run_id finished ts r free rows).0
        ≡ some (entered runs run_id finished ts r free (row_of r.finding.dedupe_key rows)))
      × ((upsert_finding runs run_id finished ts r free rows).1
          ≡ not (is_some (row_of r.finding.dedupe_key rows)))
      × (row_of other (upsert_finding runs run_id finished ts r free rows).0 ≡ row_of other rows)
unfolding upsert_finding
upsert_finding-row_of runs run_id finished ts r free [] other h =
    let self = (string_eq.agree_iff r.finding.dedupe_key r.finding.dedupe_key).1 refl in
    ground (arith, self)
upsert_finding-row_of runs run_id finished ts r free (row ∷ rows) other h =
    let later = upsert_finding-row_of runs run_id finished ts r free rows other h in
    let key = key-refresh runs run_id finished ts r row in
    let same : (refresh runs run_id finished ts r row).dedupe_key == r.finding.dedupe_key
        ≡ (row.dedupe_key == r.finding.dedupe_key) =
      ap (λ x. x == r.finding.dedupe_key) key in
    let same_other : (refresh runs run_id finished ts r row).dedupe_key == other
        ≡ (row.dedupe_key == other) =
      ap (λ x. x == other) key in
    elim (Bool-cases (row.dedupe_key == r.finding.dedupe_key)) [
      | inr e ↦ ground (arith, later)
      | inl e ↦
          let apart = other_key row.dedupe_key r.finding.dedupe_key other e h in
          ground (arith, same, same_other, apart)
    ]

-- What a run makes of a state.
abbrev pub Restates : FindingState → FindingState → Type 0
Restates before after =
    (after ≡ before)
    ⊎ ((in_closing before ≡ false)
        × ((after ≡ FindingState.unclassified)
            ⊎ ((before ≡ FindingState.unclassified) × (after ≡ FindingState.opened))))

seen_state-Restates :
    (r : Report) (s : FindingState) → Restates s (seen_state s r.classification.kind)
unfolding seen_state
seen_state-Restates r s = ground arith

-- Ingesting a run never takes a finding out of a closed state: a finding keeps its state, or was not closed
-- and becomes unclassified, or was unclassified and becomes `open`. The scanners and the database that
-- opened it stay on record.
pub refresh-Restates :
    (runs : List ScanRun) (run_id : ℕ) (finished : Option ℕ) (ts : ℕ) (r : Report)
    (row : FindingRow)
    → Restates row.state (refresh runs run_id finished ts r row).state
      × ((refresh runs run_id finished ts r row).opened_by_trivy ≡ row.opened_by_trivy)
      × ((refresh runs run_id finished ts r row).opened_by_grype ≡ row.opened_by_grype)
      × ((refresh runs run_id finished ts r row).opening_db_built_at ≡ row.opening_db_built_at)
unfolding refresh
refresh-Restates runs run_id finished ts r row = ground (arith, seen_state-Restates r row.state)
