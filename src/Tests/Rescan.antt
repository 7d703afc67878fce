-- ===== src/Tests/Rescan.antt =====
-- The theorems on a scan run weighed for work items (hardening_loop/orchestrator/engine.py) at the
-- scan of Tests.Closing.
use superset_hardening_loop.Prelude.{
  ◌≡◌, refl, ◌≢◌, Bool, true, false, none, some, List, [], ◌∷◌, map,
}
use superset_hardening_loop.Domain.WorkItemState.{WorkItemState}
use superset_hardening_loop.Domain.FindingState.{FindingState, in_closing}
use superset_hardening_loop.Prelude.Lists.{is_empty, all}
use superset_hardening_loop.Domain.Scanner.{Scanner, ScanMode}
use superset_hardening_loop.Models.Scan.{Sighting}
use superset_hardening_loop.Models.Finding.{Finding}
use superset_hardening_loop.Closer.Validity.{
  validate_closing_run, all_reasons, run_reasons, layer_reasons, image_reasons, job_reasons,
  failed_job_reasons,
}
use superset_hardening_loop.Closer.Decide.{sightings_for, decide_outcome, issue_may_close}
use superset_hardening_loop.Lifecycle.WorkItem.{work_item_transitions, next_work_item_state}
use superset_hardening_loop.Lifecycle.Finding.{finding_transitions, next_finding_state}
use superset_hardening_loop.Engine.Apply.{
  sync_human_label, move, apply_from, apply_event, apply_finding_event,
}
use superset_hardening_loop.Engine.Levels.{raise_level}
use superset_hardening_loop.Engine.World.{Call, World, Attempt}
use superset_hardening_loop.Engine.Archive.{
  Archive, weigh_run, later_run_saw, same_family, family_ids, is_present_family,
}
use superset_hardening_loop.Engine.Judging.{settle, validity_of, judge, judge_members}
use superset_hardening_loop.Engine.Closing.{verify, conclude, close_work_item}
use superset_hardening_loop.Engine.Judged.{states_of}
use superset_hardening_loop.Engine.Verified.{close_work_item_verified}
use superset_hardening_loop.Engine.Evidence.{AllSettled, close_work_item_settled}
use superset_hardening_loop.Engine.Database.{Ledger, Database, pass}
use superset_hardening_loop.Engine.Rescan.{Store, Applied, apply_scan_run, evaluate_run}
use superset_hardening_loop.Engine.Regress.{regresses, regress_one, regressions}
use superset_hardening_loop.Engine.Drift.{drift_one, drift}
use superset_hardening_loop.Engine.Once.{AllReappear, applied_once, regressions_only_fixed}
use superset_hardening_loop.Tests.Closing.{outside, classes, finding, run, jobs, gone}
use superset_hardening_loop.Tests.Engine.{ready}

abbrev pub archive : Archive
archive = record { runs = run ∷ []; jobs = jobs; sightings = gone }

abbrev merged_item : World
merged_item = record ready {
  item = record ready.item { id = 1; state = WorkItemState.merged; merge_sha = some "base" };
  findings = finding ∷ [];
}

-- The world of an attempt that succeeds.
abbrev pub world_or : World → Attempt World → World
world_or w (Attempt.stored v) = v
world_or w (Attempt.rolled_back cs) = w

abbrev pub all_succeed : Call → Bool
all_succeed c = true

abbrev closed_item : World
closed_item =
    world_or merged_item
      (close_work_item outside classes all_succeed archive 30 true run jobs gone merged_item)

close_work_item_stored :
    close_work_item outside classes all_succeed archive 30 true run jobs gone merged_item
    ≡ Attempt.stored closed_item
unfolding close_work_item judge_members judge settle validity_of later_run_saw weigh_run
    decide_outcome sightings_for validate_closing_run all_reasons run_reasons layer_reasons
    image_reasons job_reasons failed_job_reasons family_ids same_family apply_finding_event
    next_finding_state finding_transitions conclude verify apply_event apply_from raise_level
    next_work_item_state work_item_transitions move issue_may_close sync_human_label
close_work_item_stored = refl

not_verified_yet : merged_item.item.state ≢ WorkItemState.verified
not_verified_yet = cc

close_work_item_verified_example :
    (is_empty (states_of closed_item.item closed_item.findings) ≡ false)
    × (all in_closing (states_of closed_item.item closed_item.findings) ≡ true)
unfolding close_work_item judge_members judge settle validity_of later_run_saw weigh_run
    decide_outcome sightings_for validate_closing_run all_reasons run_reasons layer_reasons
    image_reasons job_reasons failed_job_reasons family_ids same_family apply_finding_event
    next_finding_state finding_transitions conclude verify apply_event apply_from raise_level
    next_work_item_state work_item_transitions move issue_may_close sync_human_label
close_work_item_verified_example =
    close_work_item_verified outside classes all_succeed archive 30 true run jobs gone merged_item
      {v = closed_item} close_work_item_stored not_verified_yet refl

close_work_item_settled_example :
    AllSettled outside classes archive 30 merged_item.item merged_item.findings run jobs gone
      merged_item.findings closed_item.findings
close_work_item_settled_example =
    close_work_item_settled outside classes all_succeed archive 30 true run jobs gone merged_item
      {v = closed_item} close_work_item_stored

-- A scan later than the run of Tests.Closing, and an item whose finding it still shows.
abbrev database : Database
database = record {
  entries =
      record {
        item = merged_item.item;
        has_row = true;
        row = merged_item.row;
        session = none;
        checks = [];
        verifications = [];
      }
      ∷ [];
  findings = finding ∷ [];
  ledger = record { log = []; calls = []; counts = [] };
}

abbrev store : Store
store = record { archive = archive; database = database }

abbrev store_or : Store → Applied → Store
store_or s (Applied.applied t) = t
store_or s _ = s

abbrev after_run : Store
after_run = store_or store (apply_scan_run outside classes all_succeed 30 3 store)

applied_once_example : apply_scan_run outside classes (λ c. false) 40 3 after_run ≡ Applied.already
unfolding apply_scan_run evaluate_run pass regressions regress_one regresses drift drift_one
    is_present_family close_work_item judge_members judge settle validity_of later_run_saw weigh_run
    decide_outcome sightings_for validate_closing_run all_reasons run_reasons layer_reasons
    image_reasons job_reasons failed_job_reasons family_ids same_family apply_finding_event
    next_finding_state finding_transitions conclude verify apply_event apply_from raise_level
    next_work_item_state work_item_transitions move issue_may_close sync_human_label
applied_once_example =
    applied_once outside classes all_succeed 30 3 store {t = after_run} (λ c. false) 40 refl

-- The fixed finding is reported again.
abbrev was_fixed : Finding
was_fixed = record finding { state = FindingState.fixed; closed_by_run_id = some 1 }

abbrev shown : List Sighting
shown =
    record {
      finding_id = 7;
      scan_run_id = 3;
      scanner = Scanner.trivy;
      mode = ScanMode.raw;
      present = true;
    }
    ∷ []

abbrev ledger : Ledger
ledger = record { log = []; calls = []; counts = [] }

abbrev pair_or : List Finding × Ledger → Attempt (List Finding × Ledger) → List Finding × Ledger
pair_or d (Attempt.stored r) = r
pair_or d (Attempt.rolled_back cs) = d

abbrev back : List Finding × Ledger
back =
    pair_or (was_fixed ∷ [], ledger)
      (regressions outside classes all_succeed archive 30 [] (was_fixed ∷ []) run jobs shown
        (was_fixed ∷ []) ledger)

regressions_only_fixed_example :
    AllReappear outside classes all_succeed archive 30 []
      (was_fixed ∷ [])
      run
      jobs
      shown
      (was_fixed ∷ [])
      back.0
unfolding regressions regress_one regresses is_present_family later_run_saw weigh_run sightings_for
    validate_closing_run all_reasons run_reasons layer_reasons image_reasons job_reasons
    failed_job_reasons family_ids same_family apply_finding_event next_finding_state
    finding_transitions
regressions_only_fixed_example =
    regressions_only_fixed outside classes all_succeed archive 30 [] (was_fixed ∷ []) run jobs shown
      (was_fixed ∷ []) ledger {r = back} refl

regressed : map (λ (f : Finding). f.state) back.0 ≡ FindingState.regression ∷ []
unfolding regressions regress_one regresses is_present_family later_run_saw weigh_run sightings_for
    validate_closing_run all_reasons run_reasons layer_reasons image_reasons job_reasons
    failed_job_reasons family_ids same_family apply_finding_event next_finding_state
    finding_transitions
regressed = refl
