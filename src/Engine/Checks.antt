-- ===== src/Engine/Checks.antt =====
-- `_checks_verdict` (hardening_loop/orchestrator/engine.py), whose three results are texts.
use superset_hardening_loop.Prelude.{
  String, ◌≡◌, refl, ap, ◌∙◌, inl, inr, some, ◌↔◌, Bool, true, false, ◌&&◌, ◌||◌, not, List, [],
  ◌∷◌, map, arith,
}
use superset_hardening_loop.Prelude.Tests.{if◌then◌else◌, Bool-cases}
use superset_hardening_loop.Prelude.Equality.{string_eq, same_option, ◌==◌}
use superset_hardening_loop.Prelude.Lists.{any, all, keep_if, is_empty, contains}
use superset_hardening_loop.Depth.Ladder.{CheckRun}
use superset_hardening_loop.Depth.Evaluate.{is_completed, is_success}

pub data Verdict : Type 0 where
  running red green : Verdict

abbrev pub names_in : List CheckRun → List String
names_in checks = map (λ (c : CheckRun). c.name) checks

-- Equality of two sets, given as lists.
abbrev pub same_members : List String → List String → Bool
same_members xs ys = all (contains ys) xs && all (contains xs) ys

unfoldable pub relevant : List String → List CheckRun → List CheckRun
relevant required checks = keep_if (λ c. is_empty required || contains required c.name) checks

abbrev pub is_red : CheckRun → Bool
is_red c = is_completed c && not (is_success c)

abbrev pub is_green : CheckRun → Bool
is_green c = is_completed c && is_success c

unfoldable pub checks_verdict : List String → List CheckRun → Verdict
checks_verdict required checks =
    let rs = relevant required checks in
    if not (is_empty required) && not (same_members (names_in rs) required)
    then Verdict.running
    else if is_empty rs
    then Verdict.running
    else if any is_red rs
    then Verdict.red
    else if all is_green rs
    then Verdict.green
    else Verdict.running

green_not_red : (rs : List CheckRun) → all is_green rs ≡ true → any is_red rs ≡ false
green_not_red [] h = refl
green_not_red (c ∷ rs) h = ground (arith, green_not_red rs)

-- Whether a run counts: if some checks are required only theirs do.
abbrev pub counts : List String → CheckRun → Bool
counts [] c = true
counts (r ∷ required) c = contains (r ∷ required) c.name

-- A run that is completed with success.
abbrev pub has_passed : CheckRun → Bool
has_passed c = c.status == "completed" && same_option c.conclusion (some "success")

abbrev pub is_reported : List CheckRun → String → Bool
is_reported checks name = any (λ (c : CheckRun). c.name == name) checks

abbrev filters_as : List String → CheckRun → Bool
filters_as required c = is_empty required || contains required c.name

filters-counts : (required : List String) (c : CheckRun) → filters_as required c ≡ counts required c
filters-counts [] c = refl
filters-counts (r ∷ required) c = refl

is_green-has_passed : (c : CheckRun) → is_green c ≡ has_passed c
is_green-has_passed c = ground arith

-- The relevant runs are those that count.
relevant_green :
    (required : List String) (checks : List CheckRun)
    → all is_green (relevant required checks)
      ≡ all (λ c. not (counts required c) || has_passed c) checks
unfolding relevant
relevant_green required [] = refl
relevant_green required (c ∷ checks) =
    ground (arith, relevant_green required checks, filters-counts required c, is_green-has_passed c)

relevant_some :
    (required : List String) (checks : List CheckRun)
    → is_empty (relevant required checks) ≡ not (any (counts required) checks)
unfolding relevant
relevant_some required [] = refl
relevant_some required (c ∷ checks) =
    ground (arith, relevant_some required checks, filters-counts required c)

-- A required name stands among the relevant runs exactly if some run has it.
relevant_reported :
    (required : List String) (checks : List CheckRun) (name : String)
    → contains required name ≡ true
    → contains (names_in (relevant required checks)) name ≡ is_reported checks name
unfolding relevant
relevant_reported required [] name h = refl
relevant_reported required (c ∷ checks) name h =
    let later = relevant_reported required checks name h in
    elim (Bool-cases (c.name == name)) [
      | inr e ↦ ground (arith, later)
      | inl e ↦
          let named : contains required c.name ≡ true =
            ap (contains required) ((string_eq.agree_iff c.name name).0 e) ∙ h in
          ground (arith, later, named)
    ]

all_reported :
    (required : List String) (checks : List CheckRun) (names : List String)
    → all (contains required) names ≡ true
    → all (contains (names_in (relevant required checks))) names ≡ all (is_reported checks) names
all_reported required checks [] h = refl
all_reported required checks (n ∷ names) h =
    ground (arith, all_reported required checks names, relevant_reported required checks n)

contains_later :
    (names : List String) (n : String) (xs : List String)
    → all (contains xs) names ≡ true
    → all (contains (n ∷ xs)) names ≡ true
contains_later [] n xs h = refl
contains_later (m ∷ names) n xs h = ground (arith, contains_later names n xs)

all-contains_self : (xs : List String) → all (contains xs) xs ≡ true
all-contains_self [] = refl
all-contains_self (x ∷ xs) =
    let self = (string_eq.agree_iff x x).1 refl in
    ground (arith, self, contains_later xs x xs (all-contains_self xs))

relevant_required :
    (required : List String) (checks : List CheckRun)
    → is_empty required ≡ false
    → all (contains required) (names_in (relevant required checks)) ≡ true
unfolding relevant
relevant_required required [] h = refl
relevant_required required (c ∷ checks) h = ground (arith, relevant_required required checks h)

all_of_none :
    (xs required : List String) → is_empty required ≡ true → all (contains xs) required ≡ true
all_of_none xs [] h = refl
all_of_none xs (r ∷ required) h = cc

-- The checks of a head are green exactly when one of them counts, every required check has been
-- reported, and all that count are completed with success; the required ones count, or all of them
-- if none is required.
pub checks_green_iff :
    (required : List String) (checks : List CheckRun)
    → (checks_verdict required checks ≡ Verdict.green) ↔ (
        (any (counts required) checks ≡ true)
        × (all (is_reported checks) required ≡ true)
        × (all (λ c. not (counts required c) || has_passed c) checks ≡ true))
unfolding checks_verdict
checks_green_iff required checks = ground (
  arith,
  green_not_red (relevant required checks),
  relevant_required required checks,
  all_of_none (names_in (relevant required checks)) required,
  relevant_green required checks,
  relevant_some required checks,
  all_reported required checks required (all-contains_self required),
)
