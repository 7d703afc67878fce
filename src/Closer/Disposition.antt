-- ===== src/Closer/Disposition.antt =====
-- Closure end to end: what a fixed finding and an approved disposition rest on
-- (hardening_loop/orchestrator/closer.py).
use superset_hardening_loop.Prelude.{
  ℕ, String, ◌≡◌, refl, sym, ◌∙◌, ◌⊎◌, inl, inr, Bool, true, false, ◌&&◌, not, Option, none, some,
  List, [], ◌∷◌, arith,
}
use superset_hardening_loop.Prelude.Tests.{if◌then◌else◌, is_some, Bool-cases}
use superset_hardening_loop.Prelude.Lists.{any, all, keep_if}
use superset_hardening_loop.Prelude.Dict.{lookup}
use superset_hardening_loop.Prelude.Json.{Fields}
use superset_hardening_loop.Domain.Scanner.{Scanner, scanner_eq, in_config_layers}
use superset_hardening_loop.Models.Scan.{ScanRun, ScanJob, Sighting}
use superset_hardening_loop.Models.Finding.{Finding}
use superset_hardening_loop.Vex.{
  CharClasses, VexStatementSummary, Checked, VexFault, validate_openvex,
}
use superset_hardening_loop.Closer.Validity.{
  Outside, RunValidity, original_detectors, validate_closing_run,
}
use superset_hardening_loop.Closer.Absence.{IsClosingRun, validate_closing_run_sound}
use superset_hardening_loop.Closer.Decide.{
  ClosingOutcome, SightingView, sightings_for, seen, covers, approves, approved_in,
  vex_approved_for_issue, decide_present, decide_outcome,
}
use superset_hardening_loop.Closer.Outcome.{
  IsAbsent, reports, seen-sightings_for, decide_outcome_fixed,
}

-- No scanner in the list reported the family of the finding raw in this run.
abbrev pub NoneReports : Finding → ScanRun → List ℕ → List Sighting → List Scanner → Type 0
NoneReports f run family_ids sightings [] = Unit
NoneReports f run family_ids sightings (d ∷ ds) =
    (any (reports f run family_ids d) sightings ≡ false) × NoneReports f run family_ids sightings ds

-- The scanners whose reports decide whether a finding is still there.
abbrev pub judges : Finding → List Scanner
judges f = if in_config_layers f.layer then Scanner.trivy ∷ [] else original_detectors f

none_reports :
    (f : Finding) (run : ScanRun) (ids : List ℕ) (ss : List Sighting) (ds : List Scanner)
    → any (seen (sightings_for f run ss ids).raw_present) ds ≡ false
    → NoneReports f run ids ss ds
none_reports f run ids ss [] h = tt
none_reports f run ids ss (d ∷ ds) h = (
  sym (seen-sightings_for f run ss ids d) ∙ ground arith,
  none_reports f run ids ss ds (ground arith),
)

absent_reports :
    (f : Finding) (run : ScanRun) (ids : List ℕ) (ss : List Sighting)
    → IsAbsent f (sightings_for f run ss ids)
    → NoneReports f run ids ss (judges f)
absent_reports f run ids ss h = none_reports f run ids ss (judges f) (ground arith)

-- A document of the list approves the issue, validates, and covers the vulnerability.
abbrev pub IsCovered : CharClasses → String → String → List Fields → Type 0
IsCovered cs issue_url vuln_id [] = ⊥
IsCovered cs issue_url vuln_id (doc ∷ docs) =
    ((approves cs issue_url doc ≡ true)
      × ((ss : List VexStatementSummary) × (validate_openvex doc ≡ Checked.ok ss)
          × (covers vuln_id ss ≡ true)))
    ⊎ IsCovered cs issue_url vuln_id docs

Checked-cases {ℓ} :
    {A : Type ℓ} (c : Checked A)
    → ((a : A) × (c ≡ Checked.ok a)) ⊎ ((e : VexFault) × (c ≡ Checked.fault e))
Checked-cases (Checked.ok a) = inl (a, refl)
Checked-cases (Checked.fault e) = inr (e, refl)

approved_in-IsCovered :
    (cs : CharClasses) (issue_url vuln_id : String) (docs : List Fields)
    → approved_in cs issue_url vuln_id docs ≡ Checked.ok true
    → IsCovered cs issue_url vuln_id docs
unfolding approved_in
approved_in-IsCovered cs issue_url vuln_id [] h = cc
approved_in-IsCovered cs issue_url vuln_id (doc ∷ docs) h =
    elim (Checked-cases (validate_openvex doc)) [
      | inr (e, c) ↦ inr (approved_in-IsCovered cs issue_url vuln_id docs (ground arith))
      | inl (ss, c) ↦ elim (Bool-cases (approves cs issue_url doc && covers vuln_id ss)) [
        | inl b ↦ inl (ground arith, (ss, c, ground arith))
        | inr b ↦ inr (approved_in-IsCovered cs issue_url vuln_id docs (ground arith))
      ]
    ]

-- The documents that a run applied cover a vulnerability for an issue.
abbrev pub IsApproved : CharClasses → ScanRun → Option String → String → Type 0
IsApproved cs run none vuln_id = ⊥
IsApproved cs run (some issue_url) vuln_id = IsCovered cs issue_url vuln_id run.vex_documents

vex_approved_for_issue-IsApproved :
    (cs : CharClasses) (run : ScanRun) (issue_url : Option String) (vuln_id : String)
    → vex_approved_for_issue cs run issue_url vuln_id ≡ Checked.ok true
    → IsApproved cs run issue_url vuln_id
unfolding vex_approved_for_issue
vex_approved_for_issue-IsApproved cs run none vuln_id h = cc
vex_approved_for_issue-IsApproved cs run (some issue_url) vuln_id h =
    approved_in-IsCovered cs issue_url vuln_id run.vex_documents h

-- The original detectors that still report the finding raw.
abbrev pub present_detectors : Finding → SightingView → List Scanner
present_detectors f view = keep_if (seen view.raw_present) (original_detectors f)

module _ (cs : CharClasses) where
  decide_present_approved :
      (f : Finding) (run : ScanRun) (view : SightingView) (by_human : Bool)
      (issue_url : Option String)
      → decide_present cs f run view by_human issue_url
        ≡ Checked.ok ClosingOutcome.approved_disposition
      → (vex_approved_for_issue cs run issue_url f.vuln_id ≡ Checked.ok true)
        × (all (λ d. is_some (lookup d view.policy_present)) (present_detectors f view) ≡ true)
        × (all (λ d. not (seen view.policy_present d)) (present_detectors f view) ≡ true)
  unfolding decide_present
  decide_present_approved f run view by_human issue_url h = ground arith

  -- An approved disposition is decided only by a valid run, for an image finding that was not
  -- closed before, whose present detectors all ran with the policy and no longer report it there,
  -- and for which the run applied a valid document that approves the item's own issue and covers
  -- the vulnerability.
  pub approved_disposition_only_if :
      (f : Finding) (run : ScanRun) (view : SightingView) (validity : RunValidity) (by_human : Bool)
      (issue_url : Option String) (was_closed : Bool)
      → decide_outcome cs f run view validity by_human issue_url was_closed
        ≡ Checked.ok ClosingOutcome.approved_disposition
      → (validity.valid ≡ true)
        × (in_config_layers f.layer ≡ false)
        × (was_closed ≡ false)
        × (all (λ d. is_some (lookup d view.policy_present)) (present_detectors f view) ≡ true)
        × (all (λ d. not (seen view.policy_present d)) (present_detectors f view) ≡ true)
        × IsApproved cs run issue_url f.vuln_id
  unfolding decide_outcome
  approved_disposition_only_if f run view validity by_human issue_url was_closed h =
      let e : decide_present cs f run view by_human issue_url
          ≡ Checked.ok ClosingOutcome.approved_disposition =
        ground arith in
      let (vex, ran, gone) = decide_present_approved f run view by_human issue_url e in
      (
        ground arith,
        ground arith,
        ground arith,
        ran,
        gone,
        vex_approved_for_issue-IsApproved cs run issue_url f.vuln_id vex,
      )

  -- If a run, validated for a finding and viewed through its sightings, decides the finding fixed,
  -- then it is a closing run for it (so not failed, partial, stale or of another branch), and no
  -- scanner that judges the finding reported its family raw in that run.
  pub fixed_means_absent :
      (out : Outside) (f : Finding) (run : ScanRun) (jobs : List ScanJob)
      (sightings : List Sighting) (family_ids : List ℕ) (merge_sha : Option String)
      (require_policy : Bool) (superseded_by : Option ScanRun) (by_human : Bool)
      (issue_url : Option String) (was_closed : Bool)
      → decide_outcome cs f run
          (sightings_for f run sightings family_ids)
          (validate_closing_run out run jobs f merge_sha require_policy superseded_by)
          by_human
          issue_url
          was_closed
        ≡ Checked.ok ClosingOutcome.fixed
      → IsClosingRun out run jobs f merge_sha require_policy superseded_by
        × NoneReports f run family_ids sightings (judges f)
  fixed_means_absent out f run jobs sightings family_ids merge_sha require_policy superseded_by
        by_human issue_url was_closed h =
      let (valid, absent) =
        (decide_outcome_fixed cs f run (sightings_for f run sightings family_ids)
            (validate_closing_run out run jobs f merge_sha require_policy superseded_by) by_human
            issue_url was_closed).0
          h in
      (
        validate_closing_run_sound out run jobs f merge_sha require_policy superseded_by valid,
        absent_reports f run family_ids sightings absent,
      )
