-- ===== src/Prelude/Dict.antt =====
-- A Python `dict` in insertion order: an update keeps the key's place, a new key goes last.
use mathlib.Core.Path.{◌≡◌, refl}
use mathlib.Core.Option.{Option, none, some}
use mathlib.Core.List.{List, [], ◌∷◌}
use native.Mathlib.Omega.{arith}
use superset_hardening_loop.Prelude.Tests.{if◌then◌else◌}
use superset_hardening_loop.Prelude.Equality.{HasEq, ◌==◌}

abbrev pub Dict {ℓ κ} : Type ℓ → Type κ → Type (ℓ ⊔ κ)
Dict K V = List (K × V)

module _ {ℓ κ} {K : Type ℓ} {V : Type κ} where
  -- `d.values()`
  abbrev pub values : Dict K V → List V
  values [] = []
  values ((key, v) ∷ entries) = v ∷ values entries

module _ {ℓ κ} {K : Type ℓ} {V : Type κ} ⦃e : HasEq K⦄ where
  -- `d.get(key)`
  abbrev pub lookup : K → Dict K V → Option V
  lookup key [] = none
  lookup key ((own, v) ∷ entries) = if own == key then some v else lookup key entries

  -- `d[key] = new`
  abbrev pub insert : K → V → Dict K V → Dict K V
  insert key new [] = (key, new) ∷ []
  insert key new ((own, old) ∷ entries) =
      if own == key then (own, new) ∷ entries else (own, old) ∷ insert key new entries

  -- A lookup after an update finds the new value at its key and the old ones elsewhere.
  pub lookup-insert :
      (key asked : K) (new : V) (entries : Dict K V)
      → lookup asked (insert key new entries)
        ≡ (if key == asked then some new else lookup asked entries)
  lookup-insert key asked new [] = refl
  lookup-insert key asked new ((own, old) ∷ entries) = ground (
    arith,
    e.agree_iff key asked,
    e.agree_iff own key,
    e.agree_iff own asked,
    lookup-insert key asked new entries,
  )
