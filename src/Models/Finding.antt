-- ===== src/Models/Finding.antt =====
-- `Finding` (hardening_loop/models/tables.py): the columns that closure and the state machine use.
use superset_hardening_loop.Prelude.{ℕ, String, Bool, Option}
use superset_hardening_loop.Domain.Scanner.{Layer, Ecosystem, ImageTarget}
use superset_hardening_loop.Domain.FindingState.{FindingState}

pub record Finding : Type 0 where
  pub id : Option ℕ
  pub dedupe_key : String
  pub vuln_id : String
  pub pkg_name : Option String
  pub ecosystem : Ecosystem
  pub layer : Layer
  pub image_target : Option ImageTarget
  pub platform : String
  pub opened_by_trivy : Bool
  pub opened_by_grype : Bool
  pub state : FindingState
  pub opening_db_built_at : Option ℕ
  pub work_item_id : Option ℕ
  pub last_seen_run_id : Option ℕ
  pub closed_by_run_id : Option ℕ
  pub updated_at : ℕ
