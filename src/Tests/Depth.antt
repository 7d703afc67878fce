-- ===== src/Tests/Depth.antt =====
-- The theorems on verification depth (hardening_loop/verification.py) at concrete check runs.
use superset_hardening_loop.Prelude.{String, ◌≡◌, refl, ◌↔◌, false, none, some, List, [], ◌∷◌}
use superset_hardening_loop.Prelude.Lists.{is_empty}
use superset_hardening_loop.Depth.Ladder.{VerificationDepth, default_ladder, CheckStatus, CheckRun}
use superset_hardening_loop.Depth.Evaluate.{
  matching_runs, component_status, matched_status, concluded_status, rung_status, component_record,
  rung_records, rung, highest_from, highest_passed, evaluate, evaluate_from,
}
use superset_hardening_loop.Depth.Laws.{AllEarned, rung_passed, highest_passed_sound}

abbrev finished : String → String → CheckRun
finished name conclusion = record {
  name = name;
  status = "completed";
  conclusion = some conclusion;
  url = none;
}

-- A head whose unit tests pass in both cells of their matrix, with one database test skipped.
abbrev runs : List CheckRun
runs =
    finished "unit-tests (3.11)" "success"
    ∷ finished "unit-tests (3.12)" "success"
    ∷ finished "test-postgres" "success"
    ∷ finished "test-mysql" "skipped"
    ∷ []

rung_passed_example :
    (rung default_ladder runs VerificationDepth.targeted_unit ≡ CheckStatus.passed) ↔ (
      (is_empty (default_ladder VerificationDepth.targeted_unit) ≡ false)
      × AllEarned runs (default_ladder VerificationDepth.targeted_unit))
rung_passed_example = rung_passed default_ladder runs VerificationDepth.targeted_unit

highest_passed_sound_example :
    (is_empty (default_ladder VerificationDepth.targeted_unit) ≡ false)
    × AllEarned runs (default_ladder VerificationDepth.targeted_unit)
unfolding highest_passed evaluate evaluate_from highest_from rung rung_records rung_status
    component_record component_status matched_status concluded_status matching_runs default_ladder
highest_passed_sound_example = highest_passed_sound default_ladder runs refl

some_databases_skipped : rung default_ladder runs VerificationDepth.db_subset ≡ CheckStatus.partial
unfolding rung rung_records rung_status component_record component_status matched_status
    concluded_status matching_runs default_ladder
some_databases_skipped = refl
