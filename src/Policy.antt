-- ===== src/Policy.antt =====
-- The pure policy checks (hardening_loop/orchestrator/policy.py).
pub mod Laws
use superset_hardening_loop.Prelude.{
  ℕ, String, Bool, true, false, ◌&&◌, ◌||◌, not, Option, none, some, List, [], ◌∷◌, ◌++◌, map,
}
use superset_hardening_loop.Prelude.Tests.{nat_beq, if◌then◌else◌}
use superset_hardening_loop.Prelude.Equality.{string_eq, ◌==◌}
use superset_hardening_loop.Prelude.Lists.{keep_if, is_empty, contains}
use superset_hardening_loop.Prelude.Text.{codes, codes_beq, starts_with, has_infix}
use superset_hardening_loop.Prelude.Regex.{Regex, literal, dot, at_end, full_match}
use superset_hardening_loop.Prelude.Strings.{concat, join}
use superset_hardening_loop.Domain.Severity.{Severity, in_default_dispatch}
use superset_hardening_loop.Domain.Kind.{Kind}
use superset_hardening_loop.Models.Config.{fork_repo, remediation_branch, in_repo_allowlist}

-- `DiffFile` (hardening_loop/github/protocol.py)
pub record DiffFile : Type 0 where
  pub filename : String
  pub status : String
  pub previous_filename : Option String

abbrev has_slash : List ℕ → Bool
has_slash n = has_infix (codes "/") n

-- `n.rsplit("/", 1)[-1]`: what follows the last slash.
abbrev pub base_name : List ℕ → List ℕ
base_name [] = []
base_name (c ∷ n) = if has_slash (c ∷ n) then base_name n else c ∷ n

abbrev pub any_text : Regex
any_text = Regex.star dot

-- `GENERATED_REQUIREMENTS`, `REQUIREMENT_SOURCES`, `VEX_APPROVED` and `VEX_PROPOSED`.
unfoldable pub is_generated : List ℕ → Bool
unfolding full_match
is_generated n =
    full_match
      (Regex.seq (literal "requirements/") (Regex.seq any_text (Regex.seq (literal ".txt") at_end)))
      n

unfoldable pub is_source : List ℕ → Bool
unfolding full_match
is_source n =
    full_match
      (Regex.seq
        (Regex.alt (literal "pyproject.toml")
          (Regex.seq (literal "requirements/") (Regex.seq any_text (literal ".in"))))
        at_end)
      n

unfoldable pub is_vex_approved : List ℕ → Bool
is_vex_approved n = starts_with n (codes "security/vex/approved/")

unfoldable pub is_vex_proposed : List ℕ → Bool
unfolding full_match
is_vex_proposed n =
    full_match
      (Regex.seq (literal "security/vex/proposed/")
        (Regex.seq any_text (Regex.seq (literal ".json") at_end)))
      n

-- `base in IGNORE_FILE_NAMES`
unfoldable pub in_ignore_file_names : List ℕ → Bool
in_ignore_file_names base =
    codes_beq base (codes ".trivyignore")
    || codes_beq base (codes ".trivyignore.yaml")
    || codes_beq base (codes ".trivyignore.yml")
    || codes_beq base (codes ".grype.yaml")
    || codes_beq base (codes ".grype.yml")

-- `n in PROTECTED_PATHS`
unfoldable pub in_protected_paths : String → Bool
in_protected_paths n =
    n == ".github/workflows/security-scan.yml"
    || n == ".github/workflows/app-runs.yml"
    || n == ".github/workflows/lean-smoke.yml"
    || n == ".github/workflows/install-scanners.yml"
    || n == ".github/workflows/vex-lint.yml"

-- The four tests on one changed file.
unfoldable pub is_ignore_file : String → Bool
unfolding in_ignore_file_names
is_ignore_file n =
    in_ignore_file_names (base_name (codes n))
    || starts_with (codes n) (codes ".grype/")
    || has_infix (codes "/.grype/") (codes n)

unfoldable pub is_protected : String → Bool
unfolding in_protected_paths
is_protected n = in_protected_paths n || starts_with (codes n) (codes "ci-negative/")

unfoldable pub is_stray_vex : String → Bool
is_stray_vex n =
    starts_with (codes n) (codes "security/vex/")
    && not (is_vex_proposed (codes n))
    && not (is_vex_approved (codes n))

abbrev pub report_if : Bool → String → String → List String
report_if b message n = if b then concat (message ∷ n ∷ []) ∷ [] else []

-- The body of the first loop.
unfoldable pub file_violations : String → List String
file_violations n =
    report_if (is_ignore_file n) "scanner ignore file: " n
    ++ (report_if (is_protected n) "protected CI path modified: " n
        ++ (report_if (is_vex_approved (codes n)) "approved VEX directory touched: " n
            ++ report_if (is_stray_vex n) "VEX outside security/vex/proposed/: " n))

unfoldable pub all_file_violations : List String → List String
unfolding file_violations
all_file_violations [] = []
all_file_violations (n ∷ ns) = file_violations n ++ all_file_violations ns

abbrev pub is_dependency_upgrade : Kind → Bool
is_dependency_upgrade Kind.dependency_upgrade = true
is_dependency_upgrade _ = false

-- The test of the generated requirements.
unfoldable pub pin_violations : List String → Kind → List String
pin_violations names kind =
    let generated = keep_if (λ n. is_generated (codes n)) names in
    let sources = keep_if (λ n. is_source (codes n)) names in
    if not (is_empty generated) && is_empty sources && not (is_dependency_upgrade kind)
    then concat
        ("generated requirements changed without pyproject.toml/*.in: " ∷ join ", " generated ∷ [])
      ∷ []
    else []

unfoldable pub is_analysis_file : String → Bool
is_analysis_file n = is_vex_proposed (codes n) || starts_with (codes n) (codes "security/analysis/")

-- The loop for `no_fix_reachability`.
unfoldable pub foreign_files : List String → List String
foreign_files [] = []
foreign_files (n ∷ ns) =
    report_if (not (is_analysis_file n)) "no-fix PR may only add proposed VEX/analysis, found: " n
    ++ foreign_files ns

unfoldable pub kind_violations : List String → Kind → List String
unfolding foreign_files
kind_violations names Kind.no_fix_reachability = foreign_files names
kind_violations names Kind.scanner_disagreement =
    "scanner-disagreement work items are analysis-only; no PR expected" ∷ []
kind_violations names _ = []

unfoldable pub diff_policy_violations : List DiffFile → Kind → List String
diff_policy_violations files kind =
    let names = map (λ (f : DiffFile). f.filename) files in
    all_file_violations names ++ (pin_violations names kind ++ kind_violations names kind)

-- `PullRequestInfo` (hardening_loop/github/protocol.py)
pub record PullRequestInfo : Type 0 where
  pub repo : String
  pub number : ℕ
  pub url : String
  pub title : String
  pub state : String
  pub merged : Bool
  pub merge_commit_sha : Option String
  pub base_ref : String
  pub head_ref : String
  pub head_repo : String
  pub head_sha : String
  pub author : String
  pub merged_at : Option ℕ

-- The messages of `verify_pull_request`, by their causes.
pub data PullRequestProblem : Type 0 where
  wrong_repo wrong_base wrong_head_repo : String → PullRequestProblem
  url_mismatch : String → String → PullRequestProblem

-- `s.rstrip("/")`
abbrev pub strip_slashes : List ℕ → List ℕ
strip_slashes [] = []
strip_slashes (c ∷ s) =
    let rest = strip_slashes s in if nat_beq c b'/' && is_empty rest then [] else c ∷ rest

-- The claimed URL is absent, or the same but for slashes at the end.
unfoldable pub claim_matches : Option String → String → Bool
claim_matches none url = true
claim_matches (some claimed) url =
    codes_beq (strip_slashes (codes claimed)) (strip_slashes (codes url))

abbrev unless : Bool → PullRequestProblem → List PullRequestProblem
unless b p = if b then [] else p ∷ []

abbrev url_problem : Option String → String → List PullRequestProblem
url_problem none url = []
url_problem (some claimed) url =
    unless (claim_matches (some claimed) url) (PullRequestProblem.url_mismatch claimed url)

unfoldable pub verify_pull_request : PullRequestInfo → Option String → List PullRequestProblem
unfolding claim_matches
verify_pull_request pr claimed_url =
    unless (in_repo_allowlist pr.repo && pr.repo == fork_repo)
      (PullRequestProblem.wrong_repo pr.repo)
    ++ (unless (pr.base_ref == remediation_branch) (PullRequestProblem.wrong_base pr.base_ref)
        ++ (unless (pr.head_repo == fork_repo) (PullRequestProblem.wrong_head_repo pr.head_repo)
            ++ url_problem claimed_url pr.url))

-- `dispatch_allowed`
unfoldable pub dispatch_allowed : Severity → List String → Bool
dispatch_allowed severity labels =
    in_default_dispatch severity || contains labels "dispatch:approved"
