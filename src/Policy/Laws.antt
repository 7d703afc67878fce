-- ===== src/Policy/Laws.antt =====
-- Which diffs and pull requests the policy lets through (hardening_loop/orchestrator/policy.py).
use text.Mathlib.TextEquality.{eq_iff}
use superset_hardening_loop.Prelude.{
  String, ◌≡◌, refl, ◌↔◌, Bool, true, false, ◌&&◌, ◌||◌, not, Option, List, [], ◌∷◌, ◌++◌, map,
  arith,
}
use superset_hardening_loop.Prelude.Equality.{string_eq}
use superset_hardening_loop.Prelude.Lists.{any, all, is_empty, keep_if, is_empty-append}
use superset_hardening_loop.Prelude.Text.{codes}
use superset_hardening_loop.Domain.Kind.{Kind}
use superset_hardening_loop.Models.Config.{fork_repo, remediation_branch}
use superset_hardening_loop.Policy.{
  DiffFile, is_generated, is_source, is_vex_approved, is_ignore_file, is_protected, is_stray_vex,
  file_violations, all_file_violations, is_dependency_upgrade, pin_violations, is_analysis_file,
  foreign_files, kind_violations, diff_policy_violations, PullRequestInfo, claim_matches,
  verify_pull_request,
}

-- No test on the single file objects.
abbrev pub is_clean : String → Bool
is_clean n =
    not (is_ignore_file n)
    && not (is_protected n)
    && not (is_vex_approved (codes n))
    && not (is_stray_vex n)

file_violations-empty : (n : String) → is_empty (file_violations n) ≡ is_clean n
unfolding file_violations
file_violations-empty n = ground arith

all_file_violations-empty : (ns : List String) → is_empty (all_file_violations ns) ≡ all is_clean ns
unfolding all_file_violations
all_file_violations-empty [] = refl
all_file_violations-empty (n ∷ ns) = ground (
  arith,
  is_empty-append (file_violations n) (all_file_violations ns),
  file_violations-empty n,
  all_file_violations-empty ns,
)

foreign_files-empty : (ns : List String) → is_empty (foreign_files ns) ≡ all is_analysis_file ns
unfolding foreign_files
foreign_files-empty [] = refl
foreign_files-empty (n ∷ ns) = ground (arith, foreign_files-empty ns)

abbrev pub names_of : List DiffFile → List String
names_of files = map (λ (f : DiffFile). f.filename) files

-- The generated pins changed only together with their sources, or in a dependency upgrade.
abbrev pub pins_explained : List String → Kind → Bool
pins_explained ns kind =
    is_dependency_upgrade kind
    || all (λ n. not (is_generated (codes n))) ns
    || any (λ n. is_source (codes n)) ns

keep_if-all :
    {A : Type 0} (p : A → Bool) (xs : List A) → is_empty (keep_if p xs) ≡ all (λ x. not (p x)) xs
keep_if-all p [] = refl
keep_if-all p (x ∷ xs) = ground (arith, keep_if-all p xs)

keep_if-any : {A : Type 0} (p : A → Bool) (xs : List A) → is_empty (keep_if p xs) ≡ not (any p xs)
keep_if-any p [] = refl
keep_if-any p (x ∷ xs) = ground (arith, keep_if-any p xs)

pin_violations-empty :
    (ns : List String) (kind : Kind) → is_empty (pin_violations ns kind) ≡ pins_explained ns kind
unfolding pin_violations
pin_violations-empty ns kind =
    ground (
      arith,
      keep_if-all (λ n. is_generated (codes n)) ns,
      keep_if-any (λ n. is_source (codes n)) ns,
    )

-- What the kind of the work item lets a diff touch.
abbrev pub kind_allows : List String → Kind → Bool
kind_allows ns Kind.no_fix_reachability = all is_analysis_file ns
kind_allows ns Kind.scanner_disagreement = false
kind_allows ns _ = true

kind_violations-empty :
    (ns : List String) (kind : Kind) → is_empty (kind_violations ns kind) ≡ kind_allows ns kind
unfolding kind_violations
kind_violations-empty ns Kind.no_fix_reachability = foreign_files-empty ns
kind_violations-empty ns Kind.scanner_disagreement = refl
kind_violations-empty ns _ = refl

-- A diff passes the policy exactly when each of its files is clean, generated pins are explained
-- by their sources or by the kind, and the kind allows the files: for a no-fix item only proposed
-- VEX and analysis, for a scanner disagreement nothing at all.
pub diff_policy_passes :
    (files : List DiffFile) (kind : Kind)
    → (is_empty (diff_policy_violations files kind) ≡ true) ↔ (
        (all is_clean (names_of files) ≡ true)
        × (pins_explained (names_of files) kind ≡ true)
        × (kind_allows (names_of files) kind ≡ true))
unfolding diff_policy_violations
diff_policy_passes files kind =
    let names = names_of files in
    ground (
      arith,
      is_empty-append (all_file_violations names)
          (pin_violations names kind ++ kind_violations names kind),
      is_empty-append (pin_violations names kind) (kind_violations names kind),
      all_file_violations-empty names,
      pin_violations-empty names kind,
      kind_violations-empty names kind,
    )

-- The policy reads only the new names of the files: two diffs with the same names get the same
-- verdict, whatever files they renamed or removed.
pub diff_policy_reads_names :
    (files others : List DiffFile) (kind : Kind)
    → names_of files ≡ names_of others
    → diff_policy_violations files kind ≡ diff_policy_violations others kind
unfolding diff_policy_violations
diff_policy_reads_names files others kind h = rw h

-- A pull request has no problem exactly when it goes from the fork to the fork's remediation
-- branch and its claimed URL, if any, is its own.
pub verify_pull_request_ok :
    (pr : PullRequestInfo) (claimed_url : Option String)
    → (is_empty (verify_pull_request pr claimed_url) ≡ true) ↔ (
        (pr.repo ≡ fork_repo)
        × (pr.base_ref ≡ remediation_branch)
        × (pr.head_repo ≡ fork_repo)
        × (claim_matches claimed_url pr.url ≡ true))
unfolding verify_pull_request
verify_pull_request_ok pr claimed_url = ground (
  arith,
  eq_iff pr.repo fork_repo,
  eq_iff pr.base_ref remediation_branch,
  eq_iff pr.head_repo fork_repo,
)
