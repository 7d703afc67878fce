-- ===== src/Tests/Closing.antt =====
-- The theorems on closure (hardening_loop/orchestrator/closer.py, hardening_loop/ingest/vex.py) at
-- a small scan.
use superset_hardening_loop.Prelude.{
  ℕ, String, ◌≡◌, refl, ◌↔◌, Bool, true, false, not, Option, none, some, List, [], ◌∷◌,
}
use superset_hardening_loop.Prelude.Tests.{if◌then◌else◌, is_some}
use superset_hardening_loop.Prelude.Equality.{string_eq, ◌==◌}
use superset_hardening_loop.Prelude.Lists.{all}
use superset_hardening_loop.Prelude.Dict.{lookup}
use superset_hardening_loop.Prelude.Regex.{full_match}
use superset_hardening_loop.Prelude.Json.{Json, Items, Fields}
use superset_hardening_loop.Domain.Scanner.{
  Scanner, ScanMode, Layer, Ecosystem, ImageTarget, ScanRunStatus, Trigger, scanner_eq,
  in_config_layers,
}
use superset_hardening_loop.Domain.FindingState.{FindingState}
use superset_hardening_loop.Models.Scan.{ScanRun, ScanJob, Sighting}
use superset_hardening_loop.Models.Finding.{Finding}
use superset_hardening_loop.Vex.{CharClasses, Checked, validate_openvex, approval_of}
use superset_hardening_loop.Vex.Laws.{Statements, validate_openvex_suppresses}
use superset_hardening_loop.Closer.Validity.{
  Outside, RunValidity, validate_closing_run, all_reasons, run_reasons, layer_reasons,
  image_reasons, job_reasons, failed_job_reasons,
}
use superset_hardening_loop.Closer.Absence.{IsClosingRun, validate_closing_run_sound}
use superset_hardening_loop.Closer.Decide.{
  ClosingOutcome, SightingView, sightings_for, seen, approves, vex_approved_for_issue,
  decide_outcome,
}
use superset_hardening_loop.Closer.Outcome.{
  IsAbsent, decide_outcome_fixed, decide_outcome_regression,
}
use superset_hardening_loop.Closer.Disposition.{
  NoneReports, judges, present_detectors, IsApproved, approved_disposition_only_if,
  fixed_means_absent,
}

abbrev parse : String → Option ℕ
parse t = if t == "0.71.2" then some 2 else if t == "0.114.0" then some 3 else none

-- Version numbers of the two pinned scanners, and a history in which `base` comes before `head`.
abbrev pub outside : Outside
outside = record {
  Version = ℕ;
  parse_version = parse;
  version_ge = λ a b. true;
  is_ancestor = λ a b. a == "base";
  show_time = λ t. "t";
}

abbrev pub classes : CharClasses
classes = record { is_word = λ c. true; is_digit = λ c. true }

abbrev pub finding : Finding
finding = record {
  id = some 7;
  dedupe_key = "k";
  vuln_id = "CVE-1";
  pkg_name = some "requests";
  ecosystem = Ecosystem.pypi;
  layer = Layer.python;
  image_target = some ImageTarget.lean;
  platform = "linux/amd64";
  opened_by_trivy = true;
  opened_by_grype = false;
  state = FindingState.awaiting_rescan;
  opening_db_built_at = some 5;
  work_item_id = some 1;
  last_seen_run_id = some 1;
  closed_by_run_id = none;
  updated_at = 0;
}

abbrev statement : Fields
statement =
    Fields.field "vulnerability" (Json.object (Fields.field "name" (Json.text "CVE-1") Fields.end))
      (Fields.field "status" (Json.text "not_affected") (
        Fields.field "products"
          (Json.array
            (Items.cons (Json.object (Fields.field "@id" (Json.text "p") Fields.end)) Items.nil))
          Fields.end))

abbrev issue : String
issue = "https://github.com/o/r/issues/1"

abbrev document : Fields
document = Fields.field "@context" (Json.text "https://openvex.dev/ns/v0.2.0") (
    Fields.field "x-approval"
      (Json.object (
        Fields.field "issue_url" (Json.text issue)
          (Fields.field "approved_by" (Json.text "a") Fields.end)))
      (Fields.field "statements" (Json.array (Items.cons (Json.object statement) Items.nil))
        Fields.end))

abbrev pub run : ScanRun
run = record {
  id = some 3;
  external_run_id = "x";
  trigger = Trigger.schedule;
  source_repo = "Hunter-1298/superset";
  source_branch = "main";
  source_sha = "head";
  platform = "linux/amd64";
  lean_digest = some "d";
  tools = "{}";
  vex_documents = document ∷ [];
  status = ScanRunStatus.complete;
  finished_at = some 20;
  closure_applied_at = none;
}

abbrev trivy_job : String → ScanJob
trivy_job name = record {
  scan_run_id = 3;
  name = name;
  image_target = some ImageTarget.lean;
  success = true;
  tool_version = some "0.71.2";
  db_built_at = some 6;
}

abbrev pub jobs : List ScanJob
jobs = trivy_job "trivy-raw" ∷ trivy_job "trivy-policy" ∷ []

abbrev sighting : ScanMode → Bool → Sighting
sighting mode present = record {
  finding_id = 7;
  scan_run_id = 3;
  scanner = Scanner.trivy;
  mode = mode;
  present = present;
}

abbrev pub gone : List Sighting
gone = sighting ScanMode.raw false ∷ []

abbrev suppressed : SightingView
suppressed = record {
  raw_present = (Scanner.trivy, true) ∷ [];
  policy_present = (Scanner.trivy, false) ∷ [];
}

abbrev sound : RunValidity
sound = record { valid = true; reasons = [] }

validate_openvex_suppresses_example :
    Statements document
      (record { vulnerability = "CVE-1"; products = "p" ∷ []; status = "not_affected" } ∷ [])
unfolding validate_openvex
validate_openvex_suppresses_example = validate_openvex_suppresses document refl

validate_closing_run_sound_example : IsClosingRun outside run jobs finding (some "base") true none
unfolding validate_closing_run all_reasons run_reasons layer_reasons image_reasons job_reasons
    failed_job_reasons
validate_closing_run_sound_example =
    validate_closing_run_sound outside run jobs finding (some "base") true none refl

decide_outcome_fixed_example :
    (decide_outcome classes finding run suppressed sound false none false
      ≡ Checked.ok ClosingOutcome.fixed)
    ↔ ((sound.valid ≡ true) × IsAbsent finding suppressed)
decide_outcome_fixed_example =
    decide_outcome_fixed classes finding run suppressed sound false none false

decide_outcome_regression_example :
    (decide_outcome classes finding run suppressed sound false none true
      ≡ Checked.ok ClosingOutcome.regression)
    ↔ ((sound.valid ≡ true) × (¬ IsAbsent finding suppressed) × (true ≡ true))
decide_outcome_regression_example =
    decide_outcome_regression classes finding run suppressed sound false none true

approved_disposition_only_if_example :
    (sound.valid ≡ true)
    × (in_config_layers finding.layer ≡ false)
    × (false ≡ false)
    × (all
          (λ d. is_some (lookup d suppressed.policy_present))
          (present_detectors finding suppressed)
        ≡ true)
    × (all (λ d. not (seen suppressed.policy_present d)) (present_detectors finding suppressed)
        ≡ true)
    × IsApproved classes run (some issue) finding.vuln_id
unfolding decide_outcome vex_approved_for_issue approves approval_of full_match validate_openvex
approved_disposition_only_if_example =
    approved_disposition_only_if classes finding run suppressed sound false (some issue) false refl

fixed_means_absent_example :
    IsClosingRun outside run jobs finding (some "base") true none
    × NoneReports finding run [] gone (judges finding)
unfolding decide_outcome sightings_for validate_closing_run all_reasons run_reasons layer_reasons
    image_reasons job_reasons failed_job_reasons
fixed_means_absent_example =
    fixed_means_absent classes outside finding run jobs gone [] (some "base") true none false none
      false refl
