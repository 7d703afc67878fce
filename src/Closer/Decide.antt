-- ===== src/Closer/Decide.antt =====
-- `sightings_for`, `_vex_approved_for_issue`, `decide_outcome` and `issue_may_close`
-- (hardening_loop/orchestrator/closer.py).
use superset_hardening_loop.Prelude.{
  ℕ, String, Bool, true, false, ◌&&◌, ◌||◌, not, Option, none, some, List, [], ◌∷◌,
}
use superset_hardening_loop.Prelude.Tests.{if◌then◌else◌, get_or, nat_beq, is_some}
use superset_hardening_loop.Prelude.Equality.{string_eq, nat_eq, ◌==◌}
use superset_hardening_loop.Prelude.Lists.{length, any, all, keep_if, is_empty, contains}
use superset_hardening_loop.Prelude.Dict.{Dict, lookup, insert}
use superset_hardening_loop.Prelude.Json.{Fields}
use superset_hardening_loop.Domain.Scanner.{Scanner, ScanMode, scanner_eq, in_config_layers}
use superset_hardening_loop.Domain.FindingState.{FindingState, in_closing}
use superset_hardening_loop.Models.Scan.{ScanRun, Sighting}
use superset_hardening_loop.Models.Finding.{Finding}
use superset_hardening_loop.Vex.{
  CharClasses, VexStatementSummary, Checked, VexFault, approval_of, validate_openvex,
}
use superset_hardening_loop.Closer.Validity.{RunValidity, original_detectors}

pub data ClosingOutcome : Type 0 where
  fixed approved_disposition scanner_disagreement_resolved regression human_blocked : ClosingOutcome
  still_present not_applicable : ClosingOutcome

pub record SightingView : Type 0 where
  pub raw_present : Dict Scanner Bool
  pub policy_present : Dict Scanner Bool

-- `finding_id in ids`, where `ids` is the family and the finding itself.
abbrev pub in_family : Finding → List ℕ → ℕ → Bool
in_family f family_ids i = contains family_ids i || elim f.id [ none ↦ false | some own ↦ own == i ]

-- `s.scan_run_id != run.id`, negated; a run with no id has no sighting.
abbrev pub of_run : ScanRun → ℕ → Bool
of_run run i = elim run.id [ none ↦ false | some own ↦ i == own ]

-- `d[scanner] = d.get(scanner, False) or present`
abbrev pub note : Scanner → Bool → Dict Scanner Bool → Dict Scanner Bool
note s present d = insert s (get_or (lookup s d) false || present) d

-- One round of the loop of `sightings_for`.
unfoldable pub sight : Finding → ScanRun → List ℕ → Sighting → SightingView → SightingView
sight f run family_ids s view =
    if in_family f family_ids s.finding_id && of_run run s.scan_run_id
    then elim s.mode [
      | ScanMode.raw ↦ record view { raw_present = note s.scanner s.present view.raw_present }
      | ScanMode.policy ↦ record view {
        policy_present = note s.scanner s.present view.policy_present;
      }
    ]
    else view

unfoldable pub sightings_from :
    Finding → ScanRun → List ℕ → List Sighting → SightingView → SightingView
unfolding sight
sightings_from f run family_ids [] view = view
sightings_from f run family_ids (s ∷ ss) view =
    sightings_from f run family_ids ss (sight f run family_ids s view)

unfoldable pub sightings_for : Finding → ScanRun → List Sighting → List ℕ → SightingView
unfolding sightings_from
sightings_for f run sightings family_ids =
    sightings_from f run family_ids sightings (record { raw_present = []; policy_present = [] })

-- `d.get(scanner, False)`
abbrev pub seen : Dict Scanner Bool → Scanner → Bool
seen d s = get_or (lookup s d) false

abbrev pub covers : String → List VexStatementSummary → Bool
covers vuln_id statements = any (λ s. s.vulnerability == vuln_id) statements

module _ (cs : CharClasses) where
  -- The `x-approval` block of a document names the issue.
  unfoldable pub approves : String → Fields → Bool
  approves issue_url doc = elim (approval_of cs doc) [
    | none ↦ false
    | some a ↦ a.issue_url == issue_url
  ]

  -- The loop of `_vex_approved_for_issue`. Only `VexEvidenceError` is caught.
  unfoldable pub approved_in : String → String → List Fields → Checked Bool
  approved_in issue_url vuln_id [] = Checked.ok false
  approved_in issue_url vuln_id (doc ∷ docs) =
      let rest = approved_in issue_url vuln_id docs in
      if approves issue_url doc
      then elim (validate_openvex doc) [
        | Checked.ok statements ↦ if covers vuln_id statements then Checked.ok true else rest
        | Checked.fault e ↦ elim e [
          | VexFault.unhashable i ↦ Checked.fault (VexFault.unhashable i)
          | _ ↦ rest
        ]
      ]
      else rest

  unfoldable pub vex_approved_for_issue : ScanRun → Option String → String → Checked Bool
  unfolding approved_in
  vex_approved_for_issue run none vuln_id = Checked.ok false
  vex_approved_for_issue run (some issue_url) vuln_id =
      approved_in issue_url vuln_id run.vex_documents

  -- The branch for the image layers of a finding that is present and was not closed.
  unfoldable pub decide_present :
      Finding → ScanRun → SightingView → Bool → Option String → Checked ClosingOutcome
  decide_present f run view disagreement_resolved_by_human issue_url =
      let present_detectors = keep_if (seen view.raw_present) (original_detectors f) in
      let unresolved =
        if nat_beq (length present_detectors) 1 && disagreement_resolved_by_human
        then Checked.ok ClosingOutcome.scanner_disagreement_resolved
        else Checked.ok ClosingOutcome.still_present in
      if all (λ d. is_some (lookup d view.policy_present)) present_detectors
        && all (λ d. not (seen view.policy_present d)) present_detectors
      then elim (vex_approved_for_issue run issue_url f.vuln_id) [
        | Checked.ok approved ↦
            if approved then Checked.ok ClosingOutcome.approved_disposition else unresolved
        | Checked.fault e ↦ Checked.fault e
      ]
      else unresolved

  unfoldable pub decide_outcome :
      Finding
      → ScanRun
      → SightingView
      → RunValidity
      → Bool
      → Option String
      → Bool
      → Checked ClosingOutcome
  unfolding decide_present
  decide_outcome f run view validity disagreement_resolved_by_human issue_url finding_was_closed =
      if not validity.valid
      then Checked.ok ClosingOutcome.not_applicable
      else if in_config_layers f.layer
      then if seen view.raw_present Scanner.trivy
        then if finding_was_closed
          then Checked.ok ClosingOutcome.regression
          else Checked.ok ClosingOutcome.still_present
        else Checked.ok ClosingOutcome.fixed
      else if not (any (seen view.raw_present) (original_detectors f))
      then Checked.ok ClosingOutcome.fixed
      else if finding_was_closed
      then Checked.ok ClosingOutcome.regression
      else decide_present f run view disagreement_resolved_by_human issue_url

-- `issue_may_close`
unfoldable pub issue_may_close : List FindingState → Bool
issue_may_close states = not (is_empty states) && all in_closing states
