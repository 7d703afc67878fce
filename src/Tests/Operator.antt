-- ===== src/Tests/Operator.antt =====
-- The theorems on the gate, the operator's launch and the diff policy (hardening_loop/gate.py,
-- hardening_loop/orchestrator/launch.py, hardening_loop/orchestrator/policy.py) at concrete inputs.
use superset_hardening_loop.Prelude.{ℕ, ◌<◌, String, ◌≡◌, ◌↔◌, true, false, none, List, [], ◌∷◌}
use superset_hardening_loop.Prelude.Lists.{is_empty, all}
use superset_hardening_loop.Prelude.Dict.{Dict}
use superset_hardening_loop.Prelude.Floats.{hundredths}
use superset_hardening_loop.Domain.Severity.{Severity}
use superset_hardening_loop.Domain.Kind.{Kind}
use superset_hardening_loop.Domain.WorkItemState.{WorkItemState}
use superset_hardening_loop.Lifecycle.WorkItem.{WorkItemEvent, Transition, next_work_item_state}
use superset_hardening_loop.Launch.{eligible, preview, cancel_block_for}
use superset_hardening_loop.Launch.Laws.{is_launchable, preview-eligible, cancel_allowed}
use superset_hardening_loop.Models.Config.{fork_repo}
use superset_hardening_loop.Policy.{DiffFile, PullRequestInfo, diff_policy_violations}
use superset_hardening_loop.Policy.Laws.{
  is_clean, names_of, pins_explained, kind_allows, diff_policy_passes,
}

abbrev counts : Dict String ℕ
counts = ("HIGH", 2) ∷ ("LOW", 9) ∷ []

preview-eligible_example :
    (eligible (
        preview hundredths 1 WorkItemState.issue_open Severity.high true 500 1 2 4000 500 6000
          fork_repo "main" 0)
      ≡ true)
    ↔ ((is_launchable WorkItemState.issue_open ≡ true)
        × (◌≡◌ {A = ℕ} 0 0)
        × (1 < 2)
        × (hundredths.gt (hundredths.add (hundredths.add 4000 500) 500) 6000 ≡ false))
preview-eligible_example =
    preview-eligible hundredths 1 WorkItemState.issue_open Severity.high true 500 1 2 4000 500 6000
      fork_repo "main" 0

cancel_allowed_example : (cancel_block_for WorkItemState.session_active true false ≡ none) ↔ (
    (next_work_item_state WorkItemState.session_active WorkItemEvent.operator_cancelled
      ≡ Transition.moved WorkItemState.needs_human)
    × (true ≡ true)
    × (false ≡ false))
cancel_allowed_example = cancel_allowed WorkItemState.session_active true false

abbrev files : List DiffFile
files =
    record { filename = "pyproject.toml"; status = "modified"; previous_filename = none }
    ∷ record { filename = "requirements/base.txt"; status = "modified"; previous_filename = none }
    ∷ []

diff_policy_passes_example :
    (is_empty (diff_policy_violations files Kind.container_hardening) ≡ true) ↔ (
      (all is_clean (names_of files) ≡ true)
      × (pins_explained (names_of files) Kind.container_hardening ≡ true)
      × (kind_allows (names_of files) Kind.container_hardening ≡ true))
diff_policy_passes_example = diff_policy_passes files Kind.container_hardening

abbrev pr : PullRequestInfo
pr = record {
  repo = "Hunter-1298/superset";
  number = 4;
  url = "https://github.com/Hunter-1298/superset/pull/4";
  title = "t";
  state = "open";
  merged = false;
  merge_commit_sha = none;
  base_ref = "main";
  head_ref = "fix";
  head_repo = "Hunter-1298/superset";
  head_sha = "h";
  author = "a";
  merged_at = none;
}
