-- ===== src/Closer/Validity.antt =====
-- `validate_closing_run` and its helpers (hardening_loop/orchestrator/closer.py). The reasons are
-- the source's messages, in the source's order.
use superset_hardening_loop.Prelude.{
  ℕ, String, Bool, true, false, not, Option, none, some, List, [], ◌∷◌, ◌++◌,
}
use superset_hardening_loop.Prelude.Tests.{ltb, if◌then◌else◌, get_or}
use superset_hardening_loop.Prelude.Equality.{string_eq, ◌==◌}
use superset_hardening_loop.Prelude.Lists.{is_empty, unique}
use superset_hardening_loop.Prelude.Dict.{Dict, lookup, insert}
use superset_hardening_loop.Prelude.Strings.{take_chars, concat}
use superset_hardening_loop.Domain.Scanner.{
  Scanner, ImageTarget, ScanRunStatus, image_target_eq, scanner_value, image_target_value,
  trigger_value, scan_run_status_value, in_closing_triggers, in_config_layers,
}
use superset_hardening_loop.Models.Config.{
  fork_repo, remediation_branch, trivy_version, grype_version,
}
use superset_hardening_loop.Models.Scan.{ScanRun, ScanJob}
use superset_hardening_loop.Models.Finding.{Finding}

-- What the rules take from elsewhere: `packaging.version`, git ancestry and the printing of times.
pub record Outside : Type 1 where
  pub Version : Type 0
  -- `Version(text)`; `none` is `InvalidVersion`.
  pub parse_version : String → Option Version
  pub version_ge : Version → Version → Bool
  -- `is_ancestor(merge_sha, run_sha)`
  pub is_ancestor : String → String → Bool
  pub show_time : ℕ → String

pub record RunValidity : Type 0 where
  pub valid : Bool
  pub reasons : List String

-- `PINNED_VERSIONS`
abbrev pub pinned_version : Scanner → String
pinned_version Scanner.trivy = trivy_version
pinned_version Scanner.grype = grype_version

abbrev pub original_detectors : Finding → List Scanner
original_detectors f =
    (if f.opened_by_trivy then Scanner.trivy ∷ [] else [])
    ++ (if f.opened_by_grype then Scanner.grype ∷ [] else [])

-- One message, or none.
abbrev pub unless : Bool → String → List String
unless b message = if b then [] else message ∷ []

abbrev pub is_complete : ScanRunStatus → Bool
is_complete ScanRunStatus.complete = true
is_complete _ = false

abbrev show_text : Option String → String
show_text o = get_or o "None"

-- Both targets are known and differ.
abbrev pub targets_differ : Option ImageTarget → Option ImageTarget → Bool
targets_differ (some a) (some b) = not (a == b)
targets_differ _ _ = false

abbrev pub show_target : Option ImageTarget → String
show_target none = "None"
show_target (some t) = image_target_value t

-- `by_name = {j.name: j for j in jobs}`: the last job of a name stays.
abbrev index_from : Dict String ScanJob → List ScanJob → Dict String ScanJob
index_from d [] = d
index_from d (j ∷ js) = index_from (insert j.name j d) js

abbrev pub by_name : List ScanJob → Dict String ScanJob
by_name jobs = index_from [] jobs

module _ (out : Outside) where
  open out use {parse_version, version_ge, is_ancestor, show_time}

  unfoldable pub version_at_least : Option String → String → Bool
  version_at_least none pinned = false
  version_at_least (some actual) pinned = elim (parse_version actual) [
    | none ↦ false
    | some a ↦ elim (parse_version pinned) [ none ↦ false | some p ↦ version_ge a p ]
  ]

  -- The freshness test of `_job_reasons`.
  abbrev pub fresh_reasons : String → Option ℕ → Option ℕ → List String
  fresh_reasons name none built = []
  fresh_reasons name (some opened) none =
      concat (name ∷ " has no db timestamp: freshness unproven" ∷ []) ∷ []
  fresh_reasons name (some opened) (some built) =
      unless (not (ltb built opened))
        (concat (name ∷ " db " ∷ show_time built ∷ " older than opening run" ∷ []))

  unfoldable pub job_reasons : String → Scanner → ScanJob → Finding → List String
  unfolding version_at_least
  job_reasons name det job f =
      unless (not (targets_differ job.image_target f.image_target)) (
        concat (
          name
          ∷ " scanned "
          ∷ show_target job.image_target
          ∷ ", need "
          ∷ show_target f.image_target
          ∷ []))
      ++ (unless (version_at_least job.tool_version (pinned_version det)) (
            concat
              (name ∷ " " ∷ show_text job.tool_version ∷ " < pinned " ∷ pinned_version det ∷ []))
          ++ fresh_reasons name f.opening_db_built_at job.db_built_at)

  -- The body of the loop over the names of a detector's jobs.
  unfoldable pub named_job_reasons : Dict String ScanJob → Finding → Scanner → String → List String
  named_job_reasons jobs f det name = elim (lookup name jobs) [
    | none ↦ concat (name ∷ " job missing or failed" ∷ []) ∷ []
    | some job ↦
        if job.success
        then job_reasons name det job f
        else concat (name ∷ " job missing or failed" ∷ []) ∷ []
  ]

  abbrev pub raw_name : Scanner → String
  raw_name det = concat (scanner_value det ∷ "-raw" ∷ [])

  abbrev pub policy_name : Scanner → String
  policy_name det = concat (scanner_value det ∷ "-policy" ∷ [])

  unfoldable pub detector_reasons :
      Dict String ScanJob → Finding → Bool → List Scanner → List String
  unfolding named_job_reasons
  detector_reasons jobs f require_policy [] = []
  detector_reasons jobs f require_policy (det ∷ dets) =
      named_job_reasons jobs f det (raw_name det)
      ++ ((if require_policy then named_job_reasons jobs f det (policy_name det) else [])
          ++ detector_reasons jobs f require_policy dets)

  -- The branch for the configuration layers.
  unfoldable pub config_reasons : Dict String ScanJob → Finding → List String
  config_reasons jobs f = elim (lookup "config-raw" jobs) [
    | none ↦ "config-raw job missing or failed" ∷ []
    | some cfg ↦
        if cfg.success
        then unless (not (targets_differ f.image_target cfg.image_target))
            "config job image target mismatch"
        else "config-raw job missing or failed" ∷ []
  ]

  -- `finding.image_target is not None and run.lean_digest is None`
  abbrev pub lacks_digest : Option ImageTarget → Option String → Bool
  lacks_digest (some t) none = true
  lacks_digest _ _ = false

  abbrev pub image_digest_reasons : ScanRun → Finding → List String
  image_digest_reasons run f =
      unless (not (lacks_digest f.image_target run.lean_digest)) "run has no lean image digest"

  abbrev pub detector_missing_reasons : Finding → List String
  detector_missing_reasons f =
      unless (not (is_empty (original_detectors f))) "finding has no original detector"

  -- The branch for the image layers.
  unfoldable pub image_reasons : ScanRun → Dict String ScanJob → Finding → Bool → List String
  unfolding detector_reasons
  image_reasons run jobs f require_policy =
      image_digest_reasons run f
      ++ (detector_missing_reasons f
          ++ detector_reasons jobs f require_policy (original_detectors f))

  unfoldable pub failed_job_reasons : List ScanJob → List String
  failed_job_reasons [] = []
  failed_job_reasons (j ∷ js) =
      unless j.success (concat ("job " ∷ j.name ∷ " failed" ∷ [])) ++ failed_job_reasons js

  abbrev pub superseded_reasons : Option ScanRun → List String
  superseded_reasons none = []
  superseded_reasons (some later) =
      concat (
        "run finished before " ∷ later.external_run_id ∷ ", the later evidence for this finding"
        ∷ [])
      ∷ []

  abbrev pub ancestry_reasons : Option String → ScanRun → List String
  ancestry_reasons none run = []
  ancestry_reasons (some sha) run = unless (is_ancestor sha run.source_sha) (
      concat (
        "run sha "
        ∷ take_chars 12 run.source_sha
        ∷ " is not "
        ∷ take_chars 12 sha
        ∷ " or a descendant"
        ∷ []))

  -- The tests on the run itself.
  unfoldable pub run_reasons : ScanRun → Finding → Option String → Option ScanRun → List String
  run_reasons run f merge_sha superseded_by =
      superseded_reasons superseded_by
      ++ (unless (run.source_repo == fork_repo)
            (concat ("repo " ∷ run.source_repo ∷ " != " ∷ fork_repo ∷ []))
          ++ (unless (run.source_branch == remediation_branch)
                (concat ("branch " ∷ run.source_branch ∷ " != " ∷ remediation_branch ∷ []))
              ++ (unless (in_closing_triggers run.trigger) (
                    concat ("trigger " ∷ trigger_value run.trigger ∷ " cannot close findings" ∷ []))
                  ++ (unless (is_complete run.status) (
                        concat (
                          "run status "
                          ∷ scan_run_status_value run.status
                          ∷ ": incomplete runs never prove absence"
                          ∷ []))
                      ++ (ancestry_reasons merge_sha run
                          ++ unless (f.platform == run.platform)
                              (concat ("platform " ∷ run.platform ∷ " != " ∷ f.platform ∷ [])))))))

  unfoldable pub layer_reasons : ScanRun → Dict String ScanJob → Finding → Bool → List String
  layer_reasons run jobs f require_policy =
      if in_config_layers f.layer
      then config_reasons jobs f
      else image_reasons run jobs f require_policy

  -- All reasons, before they are deduplicated.
  unfoldable pub all_reasons :
      ScanRun → List ScanJob → Finding → Option String → Bool → Option ScanRun → List String
  all_reasons run jobs f merge_sha require_policy superseded_by =
      run_reasons run f merge_sha superseded_by
      ++ (layer_reasons run (by_name jobs) f require_policy ++ failed_job_reasons jobs)

  unfoldable pub validate_closing_run :
      ScanRun → List ScanJob → Finding → Option String → Bool → Option ScanRun → RunValidity
  validate_closing_run run jobs f merge_sha require_policy superseded_by =
      let reasons = unique (all_reasons run jobs f merge_sha require_policy superseded_by) in
      record { valid = is_empty reasons; reasons = reasons }
