-- ===== src/Prelude/Sorting.antt =====
-- `sorted` on texts and by a key: a stable insertion sort.
use Prim.Native.Nat.{ℕ, ◌+◌}
use Prim.Native.String.{String}
use mathlib.Core.Path.{◌≡◌, refl}
use mathlib.Core.Bool.{Bool}
use mathlib.Core.List.{List, [], ◌∷◌}
use native.Mathlib.Omega.{arith}
use superset_hardening_loop.Prelude.Tests.{if◌then◌else◌}
use superset_hardening_loop.Prelude.Equality.{string_eq}
use superset_hardening_loop.Prelude.Lists.{sum_by, unique}
use superset_hardening_loop.Prelude.Text.{codes, codes_lt}

module _ {ℓ} {A : Type ℓ} (lt : A → A → Bool) where
  -- After every element that is not greater.
  abbrev pub insert_sorted : A → List A → List A
  insert_sorted x [] = x ∷ []
  insert_sorted x (y ∷ ys) = if lt x y then x ∷ y ∷ ys else y ∷ insert_sorted x ys

  abbrev sort_from : List A → List A → List A
  sort_from done [] = done
  sort_from done (x ∷ xs) = sort_from (insert_sorted x done) xs

  abbrev pub sort_by : List A → List A
  sort_by xs = sort_from [] xs

  sum_by-insert_sorted :
      (w : A → ℕ) (x : A) (ys : List A) → sum_by w (insert_sorted x ys) ≡ w x + sum_by w ys
  sum_by-insert_sorted w x [] = refl
  sum_by-insert_sorted w x (y ∷ ys) = ground (arith, sum_by-insert_sorted w x ys)

  sum_by-sort_from :
      (w : A → ℕ) (done xs : List A) → sum_by w (sort_from done xs) ≡ sum_by w done + sum_by w xs
  sum_by-sort_from w done [] = omega arith
  sum_by-sort_from w done (x ∷ xs) =
      omega (arith, sum_by-sort_from w (insert_sorted x done) xs, sum_by-insert_sorted w x done)

  -- Sorting changes no sum.
  pub sum_by-sort_by : (w : A → ℕ) (xs : List A) → sum_by w (sort_by xs) ≡ sum_by w xs
  sum_by-sort_by w xs = omega (arith, sum_by-sort_from w [] xs)

abbrev pub string_lt : String → String → Bool
string_lt s t = codes_lt (codes s) (codes t)

-- `sorted(set(xs))` on texts.
abbrev pub sorted_set : List String → List String
sorted_set xs = sort_by string_lt (unique xs)
