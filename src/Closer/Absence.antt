-- ===== src/Closer/Absence.antt =====
-- What a valid closing run is (hardening_loop/orchestrator/closer.py).
use text.Mathlib.TextEquality.{eq_iff}
use superset_hardening_loop.Prelude.{
  ℕ, ◌≤◌, String, ◌≡◌, refl, sym, ◌∙◌, Bool, true, false, Option, none, some, List, [], ◌∷◌, ◌++◌,
  inl, inr, arith,
}
use superset_hardening_loop.Prelude.Tests.{if◌then◌else◌, Bool-cases, Option-cases}
use superset_hardening_loop.Prelude.Equality.{string_eq}
use superset_hardening_loop.Prelude.Lists.{is_empty, all, is_empty-unique}
use superset_hardening_loop.Prelude.Dict.{Dict, lookup}
use superset_hardening_loop.Domain.Scanner.{
  Scanner, ScanRunStatus, in_closing_triggers, in_config_layers,
}
use superset_hardening_loop.Models.Config.{fork_repo, remediation_branch}
use superset_hardening_loop.Models.Scan.{ScanRun, ScanJob}
use superset_hardening_loop.Models.Finding.{Finding}
use superset_hardening_loop.Closer.Validity.{
  Outside, original_detectors, by_name, targets_differ, pinned_version, version_at_least,
  job_reasons, named_job_reasons, raw_name, policy_name, detector_reasons, config_reasons,
  image_digest_reasons, detector_missing_reasons, image_reasons, layer_reasons, failed_job_reasons,
  run_reasons, all_reasons, validate_closing_run,
}

-- The database of a job is no older than the one that opened the finding.
abbrev pub IsFresh : Option ℕ → Option ℕ → Type 0
IsFresh none built = Unit
IsFresh (some opened) none = ⊥
IsFresh (some opened) (some built) = opened ≤ built

split-append {ℓ} :
    {A : Type ℓ} (xs ys : List A)
    → is_empty (xs ++ ys) ≡ true
    → (is_empty xs ≡ true) × (is_empty ys ≡ true)
split-append [] ys h = (refl, h)
split-append (x ∷ xs) ys h = cc

module _ (out : Outside) where
  -- The merged commit is the scanned one or an ancestor of it.
  abbrev pub Contains : ScanRun → Option String → Type 0
  Contains run none = Unit
  Contains run (some sha) = out.is_ancestor sha run.source_sha ≡ true

  -- A job whose silence about a finding counts.
  pub record IsEvidence (det : Scanner) (job : ScanJob) (f : Finding) : Type 0 where
    pub succeeded : job.success ≡ true
    pub image : targets_differ job.image_target f.image_target ≡ false
    pub version : version_at_least out job.tool_version (pinned_version det) ≡ true
    pub fresh : IsFresh f.opening_db_built_at job.db_built_at

  -- The run's job of this name is such a job.
  abbrev pub HasEvidence : Dict String ScanJob → Finding → Scanner → String → Type 0
  HasEvidence jobs f det name =
      (job : ScanJob) × (lookup name jobs ≡ some job) × IsEvidence det job f

  abbrev pub AllDetect : Dict String ScanJob → Finding → Bool → List Scanner → Type 0
  AllDetect jobs f require_policy [] = Unit
  AllDetect jobs f require_policy (det ∷ dets) =
      HasEvidence jobs f det (raw_name out det)
      × (require_policy ≡ true → HasEvidence jobs f det (policy_name out det))
      × AllDetect jobs f require_policy dets

  job_reasons-empty :
      (name : String) (det : Scanner) (job : ScanJob) (f : Finding)
      → job.success ≡ true
      → is_empty (job_reasons out name det job f) ≡ true
      → IsEvidence det job f
  unfolding job_reasons
  job_reasons-empty name det job f s h = ground arith

  named_job_reasons-empty :
      (jobs : Dict String ScanJob) (f : Finding) (det : Scanner) (name : String)
      → is_empty (named_job_reasons out jobs f det name) ≡ true
      → HasEvidence jobs f det name
  unfolding named_job_reasons
  named_job_reasons-empty jobs f det name h = elim (Option-cases (lookup name jobs)) [
    | inl e ↦ ground arith
    | inr (job, e) ↦ elim (Bool-cases job.success) [
      | inl s ↦ (job, e, job_reasons-empty name det job f s (ground arith))
      | inr s ↦ ground arith
    ]
  ]

  detector_reasons-empty :
      (jobs : Dict String ScanJob) (f : Finding) (require_policy : Bool) (dets : List Scanner)
      → is_empty (detector_reasons out jobs f require_policy dets) ≡ true
      → AllDetect jobs f require_policy dets
  unfolding detector_reasons
  detector_reasons-empty jobs f require_policy [] h = tt
  detector_reasons-empty jobs f require_policy (det ∷ dets) h =
      let raw = named_job_reasons out jobs f det (raw_name out det) in
      let policy = named_job_reasons out jobs f det (policy_name out det) in
      let rest = detector_reasons out jobs f require_policy dets in
      let (h1, h2) = split-append raw _ h in
      let (h3, h4) = split-append (if require_policy then policy else []) rest h2 in
      (
        named_job_reasons-empty jobs f det (raw_name out det) h1,
        λ on. named_job_reasons-empty jobs f det (policy_name out det) (ground arith),
        detector_reasons-empty jobs f require_policy dets h4,
      )

  -- What a valid closing run proves about itself and its jobs.
  pub record IsClosingRun (run : ScanRun) (jobs : List ScanJob) (f : Finding)
      (merge_sha : Option String) (require_policy : Bool) (superseded_by : Option ScanRun)
      : Type 0 where
    pub latest : superseded_by ≡ none
    pub repo : run.source_repo ≡ fork_repo
    pub branch : run.source_branch ≡ remediation_branch
    pub trigger : in_closing_triggers run.trigger ≡ true
    pub complete : run.status ≡ ScanRunStatus.complete
    pub merged : Contains run merge_sha
    pub platform : f.platform ≡ run.platform
    pub jobs_passed : all (λ j. j.success) jobs ≡ true
    pub detectors : in_config_layers f.layer ≡ false → is_empty (original_detectors f) ≡ false
    pub detected :
        in_config_layers f.layer ≡ false
        → AllDetect (by_name jobs) f require_policy (original_detectors f)
    pub config_scanned :
        in_config_layers f.layer ≡ true
        → (job : ScanJob) × (lookup "config-raw" (by_name jobs) ≡ some job) × (job.success ≡ true)

  run_reasons-empty :
      (run : ScanRun) (f : Finding) (merge_sha : Option String) (superseded_by : Option ScanRun)
      → is_empty (run_reasons out run f merge_sha superseded_by) ≡ true
      → (superseded_by ≡ none)
        × (run.source_repo ≡ fork_repo)
        × (run.source_branch ≡ remediation_branch)
        × (in_closing_triggers run.trigger ≡ true)
        × (run.status ≡ ScanRunStatus.complete)
        × Contains run merge_sha
        × (f.platform ≡ run.platform)
  unfolding run_reasons
  run_reasons-empty run f merge_sha superseded_by h = ground (
    arith,
    eq_iff run.source_repo fork_repo,
    eq_iff run.source_branch remediation_branch,
    eq_iff f.platform run.platform,
  )

  failed_job_reasons-empty :
      (jobs : List ScanJob)
      → is_empty (failed_job_reasons out jobs) ≡ true
      → all (λ j. j.success) jobs ≡ true
  unfolding failed_job_reasons
  failed_job_reasons-empty [] h = refl
  failed_job_reasons-empty (j ∷ js) h = ground (arith, failed_job_reasons-empty js)

  config_reasons-empty :
      (jobs : Dict String ScanJob) (f : Finding)
      → is_empty (config_reasons out jobs f) ≡ true
      → (job : ScanJob) × (lookup "config-raw" jobs ≡ some job) × (job.success ≡ true)
  unfolding config_reasons
  config_reasons-empty jobs f h = elim (Option-cases (lookup "config-raw" jobs)) [
    | inl e ↦ ground arith
    | inr (job, e) ↦ (job, e, ground arith)
  ]

  image_reasons-empty :
      (run : ScanRun) (jobs : Dict String ScanJob) (f : Finding) (require_policy : Bool)
      → is_empty (image_reasons out run jobs f require_policy) ≡ true
      → (is_empty (original_detectors f) ≡ false)
        × AllDetect jobs f require_policy (original_detectors f)
  unfolding image_reasons
  image_reasons-empty run jobs f require_policy h =
      let (digest, h') = split-append (image_digest_reasons out run f) _ h in
      let (some_detector, h'') = split-append (detector_missing_reasons out f) _ h' in
      (ground arith, detector_reasons-empty jobs f require_policy (original_detectors f) h'')

  -- A run that validates as closing evidence for a finding is a closing run for it.
  pub validate_closing_run_sound :
      (run : ScanRun) (jobs : List ScanJob) (f : Finding) (merge_sha : Option String)
      (require_policy : Bool) (superseded_by : Option ScanRun)
      → (validate_closing_run out run jobs f merge_sha require_policy superseded_by).valid ≡ true
      → IsClosingRun run jobs f merge_sha require_policy superseded_by
  unfolding validate_closing_run all_reasons layer_reasons
  validate_closing_run_sound run jobs f merge_sha require_policy superseded_by h =
      let e =
        sym (is_empty-unique (all_reasons out run jobs f merge_sha require_policy superseded_by))
        ∙ h in
      let (h1, h2) = split-append (run_reasons out run f merge_sha superseded_by) _ e in
      let (h3, h4) = split-append (layer_reasons out run (by_name jobs) f require_policy) _ h2 in
      let (latest, repo, branch, trigger, complete, merged, platform) =
        run_reasons-empty run f merge_sha superseded_by h1 in
      record {
        latest = latest;
        repo = repo;
        branch = branch;
        trigger = trigger;
        complete = complete;
        merged = merged;
        platform = platform;
        jobs_passed = failed_job_reasons-empty jobs h4;
        detectors = λ image.
            (image_reasons-empty run (by_name jobs) f require_policy
              (rw (image, layer_reasons) at h3)).0;
        detected = λ image.
            (image_reasons-empty run (by_name jobs) f require_policy
              (rw (image, layer_reasons) at h3)).1;
        config_scanned =
            λ config. config_reasons-empty (by_name jobs) f (rw (config, layer_reasons) at h3);
      }
