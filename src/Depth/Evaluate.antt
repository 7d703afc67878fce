-- ===== src/Depth/Evaluate.antt =====
-- `matching_runs`, `_component_status`, `_rung_status` and `evaluate`
-- (hardening_loop/verification.py). The names of checks hold no quote, backslash or control
-- character, so `repr` puts them in single quotes.
use superset_hardening_loop.Prelude.{
  String, Bool, true, false, ◌&&◌, ◌||◌, not, Option, none, some, List, [], ◌∷◌, ◌++◌, map,
}
use superset_hardening_loop.Prelude.Tests.{ltb, get_or, if◌then◌else◌}
use superset_hardening_loop.Prelude.Equality.{string_eq, ◌==◌}
use superset_hardening_loop.Prelude.Lists.{length, any, all, keep_if, is_empty}
use superset_hardening_loop.Prelude.Text.{codes, starts_with}
use superset_hardening_loop.Prelude.Strings.{concat, join, show_nat}
use superset_hardening_loop.Prelude.Sorting.{sorted_set}
use superset_hardening_loop.Depth.Ladder.{
  VerificationDepth, all_depths, depth_number, depth_name, check_status_value, CheckStatus,
  CheckSource, Component, CheckRun,
}

pub record CheckRecord : Type 0 where
  pub depth : VerificationDepth
  pub name : String
  pub source : CheckSource
  pub status : CheckStatus
  pub detail : String
  pub url : Option String

abbrev pub matches : String → CheckRun → Bool
matches check r = r.name == check || starts_with (codes r.name) (codes (concat (check ∷ " (" ∷ [])))

unfoldable pub matching_runs : String → List CheckRun → List CheckRun
matching_runs check runs = keep_if (matches check) runs

abbrev pub is_completed : CheckRun → Bool
is_completed r = r.status == "completed"

-- `r.conclusion in _SUCCESS` and `r.conclusion in _UNAVAILABLE_CONCLUSIONS`
abbrev pub is_success : CheckRun → Bool
is_success r = elim r.conclusion [ none ↦ false | some c ↦ c == "success" ]

abbrev pub is_skipped : CheckRun → Bool
is_skipped r = elim r.conclusion [ none ↦ false | some c ↦ c == "skipped" || c == "neutral" ]

-- `next((r.url for r in matched if r.url), None)`
abbrev pub first_url : List CheckRun → Option String
first_url [] = none
first_url (r ∷ rs) = elim r.url [
  | none ↦ first_url rs
  | some u ↦ if is_empty (codes u) then first_url rs else some u
]

abbrev show_run : CheckRun → String
show_run r = concat (r.name ∷ "=" ∷ get_or r.conclusion "None" ∷ [])

abbrev pub StatusOf : Type 0
StatusOf = CheckStatus × String × Option String

-- The tests of `_component_status` on the matching runs, once all of them are completed.
unfoldable pub concluded_status : List CheckRun → Option String → StatusOf
concluded_status matched url =
    let failed = keep_if (λ r. not (is_success r || is_skipped r)) matched in
    let succeeded = keep_if is_success matched in
    let skipped = keep_if (λ r. not (is_success r)) matched in
    if not (is_empty failed)
    then (CheckStatus.failed, join ", " (map show_run failed), url)
    else if is_empty succeeded
    then (
      CheckStatus.unavailable,
      concat (
          "all runs concluded "
          ∷ join ", " (sorted_set (map (λ (r : CheckRun). get_or r.conclusion "None") matched))
          ∷ "; no evidence"
          ∷ []),
      url,
    )
    else if not (is_empty skipped)
    then (
      CheckStatus.partial,
      concat (
          show_nat (length succeeded)
          ∷ "/"
          ∷ show_nat (length matched)
          ∷ " runs succeeded; no evidence from "
          ∷ join ", " (map show_run skipped)
          ∷ []),
      url,
    )
    else (CheckStatus.passed, concat (show_nat (length succeeded) ∷ " run(s) succeeded" ∷ []), url)

-- `_component_status`, of the matching runs.
unfoldable pub matched_status : String → List CheckRun → StatusOf
matched_status check matched =
    if is_empty matched
    then (
      CheckStatus.unavailable,
      concat ("no check run named '" ∷ check ∷ "' on this head" ∷ []),
      none,
    )
    else if any (λ r. not (is_completed r)) matched
    then (
      CheckStatus.pending,
      concat (
          show_nat (length (keep_if (λ r. not (is_completed r)) matched))
          ∷ "/"
          ∷ show_nat (length matched)
          ∷ " runs still in progress"
          ∷ []),
      first_url matched,
    )
    else concluded_status matched (first_url matched)

unfoldable pub component_status : String → List CheckRun → StatusOf
component_status check runs = matched_status check (matching_runs check runs)

abbrev pub is_failed_status : CheckStatus → Bool
is_failed_status CheckStatus.failed = true
is_failed_status _ = false

abbrev pub is_pending_status : CheckStatus → Bool
is_pending_status CheckStatus.pending = true
is_pending_status _ = false

abbrev pub is_unavailable_status : CheckStatus → Bool
is_unavailable_status CheckStatus.unavailable = true
is_unavailable_status _ = false

abbrev pub is_passed_status : CheckStatus → Bool
is_passed_status CheckStatus.passed = true
is_passed_status _ = false

unfoldable pub rung_status : List CheckStatus → CheckStatus
rung_status statuses =
    if any is_failed_status statuses
    then CheckStatus.failed
    else if any is_pending_status statuses
    then CheckStatus.pending
    else if all is_unavailable_status statuses
    then CheckStatus.unavailable
    else if all is_passed_status statuses
    then CheckStatus.passed
    else CheckStatus.partial

-- The inner loop of `evaluate` on one component.
unfoldable pub component_record : VerificationDepth → List CheckRun → Component → CheckRecord
component_record depth runs comp = elim comp.check [
  | none ↦ record {
    depth = depth;
    name = comp.name;
    source = CheckSource.ladder;
    status = CheckStatus.unavailable;
    detail = concat ("no check exists for this on the repository: " ∷ comp.description ∷ []);
    url = none;
  }
  | some check ↦ record {
    depth = depth;
    name = comp.name;
    source = CheckSource.github_check;
    status = (component_status check runs).0;
    detail = (component_status check runs).1;
    url = (component_status check runs).2;
  }
]

abbrev pub Ladder : Type 0
Ladder = VerificationDepth → List Component

unfoldable pub rung_records : Ladder → List CheckRun → VerificationDepth → List CheckRecord
rung_records ladder runs depth = map (component_record depth runs) (ladder depth)

abbrev pub statuses_of : List CheckRecord → List CheckStatus
statuses_of records = map (λ (r : CheckRecord). r.status) records

-- `rungs[depth]`
unfoldable pub rung : Ladder → List CheckRun → VerificationDepth → CheckStatus
rung ladder runs depth =
    let statuses = statuses_of (rung_records ladder runs depth) in
    if is_empty statuses then CheckStatus.unavailable else rung_status statuses

pub record DepthEvaluation : Type 0 where
  pub records : List CheckRecord
  pub rungs : List (VerificationDepth × CheckStatus)

unfoldable pub evaluate_from : Ladder → List CheckRun → List VerificationDepth → DepthEvaluation
evaluate_from ladder runs [] = record { records = []; rungs = [] }
evaluate_from ladder runs (d ∷ ds) =
    let rest = evaluate_from ladder runs ds in
    record {
      records = rung_records ladder runs d ++ rest.records;
      rungs = (d, rung ladder runs d) ∷ rest.rungs;
    }

-- `evaluate`
unfoldable pub evaluate : List CheckRun → Ladder → DepthEvaluation
evaluate runs ladder = evaluate_from ladder runs all_depths

-- `rung_summary`
abbrev pub rung_summary : DepthEvaluation → List (String × String)
rung_summary e =
    map (λ (r : VerificationDepth × CheckStatus). (depth_name r.0, check_status_value r.1)) e.rungs

-- `max(passed) if passed else None`
abbrev pub is_better : Option VerificationDepth → VerificationDepth → Bool
is_better none d = true
is_better (some b) d = ltb (depth_number b) (depth_number d)

unfoldable pub highest_from :
    Option VerificationDepth → List (VerificationDepth × CheckStatus) → Option VerificationDepth
highest_from best [] = best
highest_from best ((d, s) ∷ rungs) =
    highest_from (if is_passed_status s && is_better best d then some d else best) rungs

unfoldable pub highest_passed : DepthEvaluation → Option VerificationDepth
highest_passed e = highest_from none e.rungs
