-- ===== src/Engine/Judging.antt =====
-- The first part of `_close_work_item` (hardening_loop/orchestrator/engine.py): what one scan run says of each
-- finding of a work item.
use superset_hardening_loop.Prelude.{
  ℕ, ◌+◌, String, Bool, true, false, ◌||◌, Option, none, some, List, [], ◌∷◌, ◌++◌, map,
}
use superset_hardening_loop.Prelude.Tests.{get_or, if◌then◌else◌}
use superset_hardening_loop.Prelude.Equality.{string_eq, nat_eq, same_option}
use superset_hardening_loop.Prelude.Lists.{take}
use superset_hardening_loop.Prelude.Dict.{Dict, lookup, insert}
use superset_hardening_loop.Prelude.Strings.{concat, join, show_nat, take_chars, repr}
use superset_hardening_loop.Prelude.Sorting.{sort_by, sorted_set, string_lt}
use superset_hardening_loop.Domain.WorkItemState.{WorkItemState}
use superset_hardening_loop.Domain.FindingState.{FindingState, in_closing, value as finding_value}
use superset_hardening_loop.Domain.Kind.{Kind}
use superset_hardening_loop.Models.Scan.{ScanRun, ScanJob, Sighting}
use superset_hardening_loop.Models.Finding.{Finding}
use superset_hardening_loop.Lifecycle.Finding.{FindingEvent}
use superset_hardening_loop.Vex.{CharClasses, Checked}
use superset_hardening_loop.Closer.Validity.{Outside, RunValidity, validate_closing_run}
use superset_hardening_loop.Closer.Decide.{ClosingOutcome, sightings_for, decide_outcome}
use superset_hardening_loop.Engine.World.{WorkItem, Event, World}
use superset_hardening_loop.Engine.Apply.{Traced, apply_finding_event}
use superset_hardening_loop.Engine.Archive.{Archive, later_run_saw, family_ids}

abbrev pub outcome_value : ClosingOutcome → String
outcome_value ClosingOutcome.fixed = "fixed"
outcome_value ClosingOutcome.approved_disposition = "approved_disposition"
outcome_value ClosingOutcome.scanner_disagreement_resolved = "scanner_disagreement_resolved"
outcome_value ClosingOutcome.regression = "regression"
outcome_value ClosingOutcome.human_blocked = "human_blocked"
outcome_value ClosingOutcome.still_present = "still_present"
outcome_value ClosingOutcome.not_applicable = "not_applicable"

abbrev pub is_not_applicable : ClosingOutcome → Bool
is_not_applicable ClosingOutcome.not_applicable = true
is_not_applicable _ = false

abbrev pub is_still_present : ClosingOutcome → Bool
is_still_present ClosingOutcome.still_present = true
is_still_present _ = false

abbrev pub is_no_fix_kind : Kind → Bool
is_no_fix_kind Kind.no_fix_reachability = true
is_no_fix_kind _ = false

abbrev pub is_merged : WorkItemState → Bool
is_merged WorkItemState.merged = true
is_merged _ = false

-- `counts[key] += 1`
abbrev pub count_one : String → Dict String ℕ → Dict String ℕ
count_one key counts = insert key (get_or (lookup key counts) 0 + 1) counts

-- The judgement of one member, with the reasons of a run that does not apply to it.
pub record Judgement : Type 0 where
  pub outcome : ClosingOutcome
  pub reasons : List String

-- The findings after the first pass; a finding of another item has no judgement.
abbrev pub Judged : Type 0
Judged = List (Finding × Option Judgement)

abbrev pub is_member : WorkItem → Finding → Bool
is_member wi f = same_option f.work_item_id (some wi.id)

abbrev pub require_policy : WorkItem → Bool
require_policy wi =
    is_no_fix_kind wi.kind || same_option wi.human_resolution (some "disposition:approved")

abbrev pub disagreement_resolved : WorkItem → Bool
disagreement_resolved wi = same_option wi.human_resolution (some "disagreement:resolved")

abbrev pub finding_id : Finding → ℕ
finding_id f = get_or f.id 0

-- The event of an outcome, as the `match` of the loop records it.
unfoldable pub settle : ℕ → ScanRun → ClosingOutcome → Finding → List Event → Traced
settle now run outcome f log =
    let at : Traced = record { finding = f; log = log } in
    elim outcome [
      | ClosingOutcome.fixed ↦
          (apply_finding_event now (finding_id f) FindingEvent.closing_absent
            (concat ("absent in run " ∷ run.external_run_id ∷ [])) "scanner" run.id at).1
      | ClosingOutcome.approved_disposition ↦
          (apply_finding_event now (finding_id f) FindingEvent.closing_vex
            (concat ("approved VEX in run " ∷ run.external_run_id ∷ [])) "scanner" run.id at).1
      | ClosingOutcome.scanner_disagreement_resolved ↦
          (apply_finding_event now (finding_id f) FindingEvent.disagreement_resolved
            (concat ("single-scanner in run " ∷ run.external_run_id ∷ [])) "human" run.id at).1
      | _ ↦ at
    ]

-- `f.state for f in members`, and the members with an outcome.
abbrev pub member_states : Judged → List FindingState
member_states [] = []
member_states ((f, none) ∷ rest) = member_states rest
member_states ((f, some j) ∷ rest) = f.state ∷ member_states rest

abbrev pub judgements : Judged → List Judgement
judgements [] = []
judgements ((f, none) ∷ rest) = judgements rest
judgements ((f, some j) ∷ rest) = j ∷ judgements rest

abbrev pub flatten_reasons : List Judgement → List String
flatten_reasons [] = []
flatten_reasons (j ∷ js) = j.reasons ++ flatten_reasons js

abbrev pub still_ids : Judged → List String
still_ids [] = []
still_ids ((f, none) ∷ rest) = still_ids rest
still_ids ((f, some j) ∷ rest) =
    if is_still_present j.outcome then f.vuln_id ∷ still_ids rest else still_ids rest

abbrev pub still_reason : ScanRun → Judged → String
still_reason run judged = concat (
    "still present in run "
    ∷ run.external_run_id
    ∷ ": "
    ∷ join ", " (take 8 (sort_by string_lt (still_ids judged)))
    ∷ [])

abbrev pub invalid_reason : ScanRun → Judged → String
invalid_reason run judged = concat (
    "run "
    ∷ run.external_run_id
    ∷ " not a valid closing run: "
    ∷ join "; " (take 6 (sorted_set (flatten_reasons (judgements judged))))
    ∷ [])

abbrev pub evaluated_reason : ScanRun → String
evaluated_reason run = concat ("run " ∷ run.external_run_id ∷ " evaluated" ∷ [])

-- The second pass: the members that are still there are blocked for a human.
unfoldable pub block_one : ℕ → ScanRun → Finding → Option Judgement → List Event → Traced
block_one now run f none log = record { finding = f; log = log }
block_one now run f (some j) log =
    if is_still_present j.outcome
    then (apply_finding_event now (finding_id f) FindingEvent.human_blocked
        (concat ("present after merge in run " ∷ run.external_run_id ∷ [])) "scanner" none
        (record { finding = f; log = log })).1
    else record { finding = f; log = log }

unfoldable pub block_still : ℕ → ScanRun → Judged → List Event → List Finding × List Event
block_still now run [] log = ([], log)
block_still now run ((f, j) ∷ rest) log =
    let t = block_one now run f j log in
    let later = block_still now run rest t.log in (t.finding ∷ later.0, later.1)

-- `dict(by_state)` in a message.
abbrev pub states_from : Dict String ℕ → List FindingState → Dict String ℕ
states_from d [] = d
states_from d (s ∷ ss) = states_from (count_one (finding_value s) d) ss

abbrev pub show_counts : Dict String ℕ → String
show_counts d = concat (
    "{"
    ∷ join ", " (map (λ (e : String × ℕ). concat (repr e.0 ∷ ": " ∷ show_nat e.1 ∷ [])) d)
    ∷ "}"
    ∷ [])

abbrev pub verified_comment : ScanRun → List FindingState → String
verified_comment run states = concat (
    "Verified by scan run `"
    ∷ run.external_run_id
    ∷ "` of `"
    ∷ run.source_branch
    ∷ "` @ `"
    ∷ take_chars 12 run.source_sha
    ∷ "` (lean "
    ∷ get_or run.lean_digest "None"
    ∷ "); outcomes: "
    ∷ show_counts (states_from [] states)
    ∷ ". Tools: "
    ∷ run.tools
    ∷ ". Closing."
    ∷ [])

abbrev pub count_outcomes : List Judgement → Dict String ℕ → Dict String ℕ
count_outcomes [] counts = counts
count_outcomes (j ∷ js) counts = count_outcomes js (count_one (outcome_value j.outcome) counts)

abbrev pub findings_of : Judged → List Finding
findings_of judged = map (λ (p : Finding × Option Judgement). p.0) judged

-- The world after the first loop.
abbrev pub after_judging : World → Judged → List Event → World
after_judging w judged log = record w {
  findings = findings_of judged;
  log = log;
  counts = count_outcomes (judgements judged) w.counts;
}

module _ (out : Outside) (cs : CharClasses) (archive : Archive) (now : ℕ) where
  unfoldable pub validity_of : WorkItem → ScanRun → List ScanJob → Finding → RunValidity
  validity_of wi run jobs f =
      validate_closing_run out run jobs f wi.merge_sha (require_policy wi)
        (later_run_saw archive run f)

  unfoldable pub judge :
      WorkItem → List Finding → ScanRun → List ScanJob → List Sighting → Finding → Checked Judgement
  judge wi all_findings run jobs sightings f =
      let validity = validity_of wi run jobs f in
      elim (decide_outcome cs f run (sightings_for f run sightings (family_ids all_findings f))
        validity (disagreement_resolved wi) wi.issue_url (in_closing f.state)) [
          | Checked.ok o ↦ Checked.ok (record {
            outcome = o;
            reasons = if is_not_applicable o then validity.reasons else [];
          })
          | Checked.fault e ↦ Checked.fault e
        ]

  -- The first loop, over the findings of the database: members are judged and settled.
  unfoldable pub judge_members :
      WorkItem
      → List Finding
      → ScanRun
      → List ScanJob
      → List Sighting
      → List Finding
      → List Event
      → Checked (Judged × List Event)
  judge_members wi all_findings run jobs sightings [] log = Checked.ok ([], log)
  judge_members wi all_findings run jobs sightings (f ∷ fs) log = elim (is_member wi f) [
    | false ↦ elim (judge_members wi all_findings run jobs sightings fs log) [
      | Checked.ok r ↦ Checked.ok ((f, none) ∷ r.0, r.1)
      | Checked.fault e ↦ Checked.fault e
    ]
    | true ↦ elim (judge wi all_findings run jobs sightings f) [
      | Checked.fault e ↦ Checked.fault e
      | Checked.ok j ↦
          let t = settle now run j.outcome f log in
          elim (judge_members wi all_findings run jobs sightings fs t.log) [
            | Checked.ok r ↦ Checked.ok ((t.finding, some j) ∷ r.0, r.1)
            | Checked.fault e ↦ Checked.fault e
          ]
    ]
  ]
