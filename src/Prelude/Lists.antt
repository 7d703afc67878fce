-- ===== src/Prelude/Lists.antt =====
-- Python's list idioms: `any`, `all`, `in`, comprehensions with a filter, `len`.
use Prim.Native.Nat.{ℕ, zero, suc, ◌+◌}
use mathlib.Core.Path.{◌≡◌, refl}
use mathlib.Core.Bool.{Bool, true, false, ◌&&◌, ◌||◌}
use mathlib.Core.List.{List, [], ◌∷◌, ◌++◌}
use native.Mathlib.Omega.{arith}
use superset_hardening_loop.Prelude.Tests.{if◌then◌else◌}
use superset_hardening_loop.Prelude.Equality.{HasEq, ◌==◌}

module _ {ℓ} {A : Type ℓ} where
  abbrev pub length : List A → ℕ
  length [] = 0
  length (x ∷ xs) = suc (length xs)

  -- `xs[:n]`
  abbrev pub take : ℕ → List A → List A
  take zero xs = []
  take (suc n) [] = []
  take (suc n) (x ∷ xs) = x ∷ take n xs

  -- `any(p(x) for x in xs)`
  abbrev pub any : (A → Bool) → List A → Bool
  any p [] = false
  any p (x ∷ xs) = p x || any p xs

  -- `all(p(x) for x in xs)`
  abbrev pub all : (A → Bool) → List A → Bool
  all p [] = true
  all p (x ∷ xs) = p x && all p xs

  -- `[x for x in xs if p(x)]`
  abbrev pub keep_if : (A → Bool) → List A → List A
  keep_if p [] = []
  keep_if p (x ∷ xs) = if p x then x ∷ keep_if p xs else keep_if p xs

  -- `sum(w(x) for x in xs)`
  abbrev pub sum_by : (A → ℕ) → List A → ℕ
  sum_by w [] = 0
  sum_by w (x ∷ xs) = w x + sum_by w xs

  -- How many of the elements meet the test.
  abbrev pub count : (A → Bool) → List A → ℕ
  count p xs = sum_by (λ x. if p x then 1 else 0) xs

  pub sum_by-append : (w : A → ℕ) (xs ys : List A) → sum_by w (xs ++ ys) ≡ sum_by w xs + sum_by w ys
  sum_by-append w [] ys = omega arith
  sum_by-append w (x ∷ xs) ys = omega (arith, sum_by-append w xs ys)

  -- `not xs`
  abbrev pub is_empty : List A → Bool
  is_empty [] = true
  is_empty (x ∷ xs) = false

  pub any-append : (p : A → Bool) (xs ys : List A) → any p (xs ++ ys) ≡ any p xs || any p ys
  any-append p [] ys = refl
  any-append p (x ∷ xs) ys = ground (arith, any-append p xs ys)

  pub is_empty-append : (xs ys : List A) → is_empty (xs ++ ys) ≡ is_empty xs && is_empty ys
  is_empty-append [] ys = refl
  is_empty-append (x ∷ xs) ys = refl

  pub is_empty-keep_if :
      (p : A → Bool) (xs : List A)
      → is_empty (keep_if p xs) ≡ all (λ x. if p x then false else true) xs
  is_empty-keep_if p [] = refl
  is_empty-keep_if p (x ∷ xs) = ground (arith, is_empty-keep_if p xs)

module _ {ℓ} {A : Type ℓ} ⦃e : HasEq A⦄ where
  -- `a in xs`
  abbrev pub contains : List A → A → Bool
  contains [] a = false
  contains (x ∷ xs) a = x == a || contains xs a

module _ {ℓ} {A : Type ℓ} ⦃e : HasEq A⦄ where
  -- `list(dict.fromkeys(xs))`: the first of equal elements stays; `seen` are the keys so far.
  abbrev pub unique_from : List A → List A → List A
  unique_from seen [] = []
  unique_from seen (x ∷ xs) = elim (contains seen x) [
    | true ↦ unique_from seen xs
    | false ↦ x ∷ unique_from (x ∷ seen) xs
  ]

  abbrev pub unique : List A → List A
  unique xs = unique_from [] xs

  pub is_empty-unique : (xs : List A) → is_empty (unique xs) ≡ is_empty xs
  is_empty-unique [] = refl
  is_empty-unique (x ∷ xs) = refl
