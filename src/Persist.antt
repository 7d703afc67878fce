-- ===== src/Persist.antt =====
-- `_upsert_finding` and `_finished_before` (hardening_loop/ingest/persist.py): what a run that is ingested
-- makes of the finding with a key. A finding's columns that closure reads and its description are kept
-- apart.
use superset_hardening_loop.Prelude.{
  ℕ, String, Bool, true, false, ◌&&◌, not, Option, none, some, List, [], ◌∷◌, ◌++◌,
}
use superset_hardening_loop.Prelude.Tests.{ltb, is_some, if◌then◌else◌}
use superset_hardening_loop.Prelude.Equality.{string_eq, nat_eq, same_option, ◌==◌}
use superset_hardening_loop.Prelude.Lists.{contains}
use superset_hardening_loop.Prelude.Dict.{Dict}
use superset_hardening_loop.Domain.Severity.{Severity}
use superset_hardening_loop.Domain.Scanner.{Scanner, scanner_eq, Layer, Ecosystem, ImageTarget}
use superset_hardening_loop.Domain.Kind.{Kind, Risk}
use superset_hardening_loop.Domain.FindingState.{FindingState, in_closing}
use superset_hardening_loop.Models.Scan.{ScanRun}
use superset_hardening_loop.Ingest.Normalized.{NormalizedFinding, severity_disagreement}
use superset_hardening_loop.Classify.Rules.{Classification}
use superset_hardening_loop.Engine.Archive.{run_with_id}
pub mod Order
pub mod Table

-- The columns that describe a finding.
pub record Description : Type 0 where
  pub purl : Option String
  pub pkg_name : Option String
  pub pkg_version : Option String
  pub ecosystem : Ecosystem
  pub image_target : ImageTarget
  pub platform : String
  pub resource : Option String
  pub title : Option String
  pub severity : Severity
  pub severity_by_scanner : Dict String String
  pub severity_disagreement : Bool
  pub fix_versions_by_scanner : Dict String (List String)
  pub reported_by_trivy : Bool
  pub reported_by_grype : Bool
  pub kind : Option Kind
  pub risk : Risk
  pub bound_blocked : Bool
  pub classification_trace : String
  pub unclassified_reason : Option String

pub record FindingRow : Type 0 where
  pub id : ℕ
  pub dedupe_key : String
  pub vuln_id : String
  pub layer : Layer
  pub description : Description
  pub opened_by_trivy : Bool
  pub opened_by_grype : Bool
  pub state : FindingState
  pub first_seen_run_id : ℕ
  pub last_seen_run_id : ℕ
  pub opening_db_built_at : Option ℕ
  pub created_at : ℕ
  pub updated_at : ℕ

-- What is read of the raw job of a run (`ScanJobEvidence`).
pub record RawJob : Type 0 where
  pub image_target : ImageTarget
  pub platform : String
  pub trivy_db_updated_at : Option ℕ
  pub grype_db_built_at : Option ℕ

-- A finding of a run: what the scanners and the rules say of it.
pub record Report : Type 0 where
  pub raw : RawJob
  pub finding : NormalizedFinding
  pub classification : Classification

unfoldable pub finished_before : List ScanRun → ℕ → Option ℕ → ℕ → Bool
finished_before runs run_id finished other_run_id =
    if other_run_id == run_id then false else elim finished [
      | none ↦ false
      | some t ↦ elim (run_with_id other_run_id runs) [
        | none ↦ false
        | some other ↦ elim other.finished_at [ none ↦ false | some u ↦ ltb t u ]
      ]
    ]

abbrev reported_by : NormalizedFinding → Scanner → Bool
reported_by nf s = contains nf.reported_by s

-- `min` of the times that there are.
abbrev earliest : Option ℕ → Option ℕ → Option ℕ
earliest none b = b
earliest (some a) none = some a
earliest (some a) (some b) = if ltb b a then some b else some a

abbrev pub describe : Report → Description
describe r = record {
  purl = r.finding.purl;
  pkg_name = r.finding.pkg_name;
  pkg_version = r.finding.pkg_version;
  ecosystem = r.finding.ecosystem;
  image_target = r.raw.image_target;
  platform = r.raw.platform;
  resource = r.finding.resource;
  title = r.finding.title;
  severity = r.finding.severity;
  severity_by_scanner = r.finding.severity_by_scanner;
  severity_disagreement = severity_disagreement r.finding;
  fix_versions_by_scanner = r.finding.fix_versions_by_scanner;
  reported_by_trivy = reported_by r.finding Scanner.trivy;
  reported_by_grype = reported_by r.finding Scanner.grype;
  kind = r.classification.kind;
  risk = r.classification.risk;
  bound_blocked = r.classification.bound_blocked;
  classification_trace = r.classification.trace;
  unclassified_reason = r.classification.unclassified_reason;
}

abbrev is_unclassified : FindingState → Bool
is_unclassified FindingState.unclassified = true
is_unclassified _ = false

-- The state that a run leaves, by the kind that it gives.
unfoldable pub seen_state : FindingState → Option Kind → FindingState
seen_state state kind = if in_closing state then state else elim kind [
  | none ↦ FindingState.unclassified
  | some k ↦ if is_unclassified state then FindingState.opened else state
]

-- The columns that the run which speaks for a finding writes.
abbrev pub spoken : ℕ → ℕ → Report → FindingRow → FindingRow
spoken run_id ts r row = record row {
  description = describe r;
  state = seen_state row.state r.classification.kind;
  last_seen_run_id = run_id;
  updated_at = ts;
}

-- A finding that is there.
unfoldable pub refresh : List ScanRun → ℕ → Option ℕ → ℕ → Report → FindingRow → FindingRow
refresh runs run_id finished ts r row =
    let first =
      if finished_before runs run_id finished row.first_seen_run_id
      then run_id
      else row.first_seen_run_id in
    let dated : FindingRow = record row { first_seen_run_id = first } in
    if finished_before runs run_id finished row.last_seen_run_id
    then dated
    else spoken run_id ts r dated

-- A finding that is not there yet.
abbrev pub open_finding : ℕ → ℕ → ℕ → Report → FindingRow
open_finding id run_id ts r = record {
  id = id;
  dedupe_key = r.finding.dedupe_key;
  vuln_id = r.finding.vuln_id;
  layer = r.finding.layer;
  description = describe r;
  opened_by_trivy = reported_by r.finding Scanner.trivy;
  opened_by_grype = reported_by r.finding Scanner.grype;
  state = seen_state FindingState.opened r.classification.kind;
  first_seen_run_id = run_id;
  last_seen_run_id = run_id;
  opening_db_built_at = earliest r.raw.trivy_db_updated_at r.raw.grype_db_built_at;
  created_at = ts;
  updated_at = ts;
}

-- The rows afterwards, and whether a new one was opened under the free id.
unfoldable pub upsert_finding :
    List ScanRun → ℕ → Option ℕ → ℕ → Report → ℕ → List FindingRow → List FindingRow × Bool
upsert_finding runs run_id finished ts r free [] = (open_finding free run_id ts r ∷ [], true)
upsert_finding runs run_id finished ts r free (row ∷ rows) =
    let rest = upsert_finding runs run_id finished ts r free rows in
    if row.dedupe_key == r.finding.dedupe_key
    then (refresh runs run_id finished ts r row ∷ rows, false)
    else (row ∷ rest.0, rest.1)

-- The row of a key, if there is one.
abbrev pub row_of : String → List FindingRow → Option FindingRow
row_of key [] = none
row_of key (row ∷ rows) = if row.dedupe_key == key then some row else row_of key rows
