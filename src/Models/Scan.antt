-- ===== src/Models/Scan.antt =====
-- `ScanRun`, `ScanJob` and `Sighting` (hardening_loop/models/tables.py): the columns that closure
-- reads. `tools` is the dictionary as a message shows it.
use superset_hardening_loop.Prelude.{ℕ, String, Bool, Option, List}
use superset_hardening_loop.Prelude.Json.{Fields}
use superset_hardening_loop.Domain.Scanner.{Scanner, ScanMode, ImageTarget, ScanRunStatus, Trigger}

pub record ScanRun : Type 0 where
  pub id : Option ℕ
  pub external_run_id : String
  pub trigger : Trigger
  pub source_repo : String
  pub source_branch : String
  pub source_sha : String
  pub platform : String
  pub lean_digest : Option String
  pub tools : String
  pub vex_documents : List Fields
  pub status : ScanRunStatus
  pub finished_at : Option ℕ
  pub closure_applied_at : Option ℕ

pub record ScanJob : Type 0 where
  pub scan_run_id : ℕ
  pub name : String
  pub image_target : Option ImageTarget
  pub success : Bool
  pub tool_version : Option String
  pub db_built_at : Option ℕ

pub record Sighting : Type 0 where
  pub finding_id : ℕ
  pub scan_run_id : ℕ
  pub scanner : Scanner
  pub mode : ScanMode
  pub present : Bool
