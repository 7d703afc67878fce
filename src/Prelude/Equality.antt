-- ===== src/Prelude/Equality.antt =====
-- `==` on the keys and values that the program compares: numbers, texts, and enums elsewhere.
use Prim.Native.Nat.{ℕ}
use Prim.Native.String.{String}
use mathlib.Core.Path.{◌≡◌, ap}
use mathlib.Core.Logic.{◌↔◌}
use mathlib.Core.Bool.{Bool, true, false}
use mathlib.Core.Option.{Option, none, some}
use native.Mathlib.Omega.{arith}
use text.Mathlib.Text
use text.Mathlib.TextEquality
use superset_hardening_loop.Prelude.Tests.{nat_beq}

-- A Boolean test that agrees with equality.
pub record HasEq {ℓ} (T : Type ℓ) : Type ℓ where
  pub agree : T → T → Bool
  pub agree_iff : (x y : T) → (agree x y ≡ true) ↔ (x ≡ y)

pub nat_beq_iff : (m n : ℕ) → (nat_beq m n ≡ true) ↔ (m ≡ n)
nat_beq_iff m n = ground arith

instance abbrev pub string_eq : HasEq String
string_eq = record { agree = λ s t. Text.◌==◌ s t; agree_iff = λ s t. TextEquality.eq_iff s t }

instance abbrev pub nat_eq : HasEq ℕ
nat_eq = record { agree = λ m n. nat_beq m n; agree_iff = λ m n. nat_beq_iff m n }

infix 50 ◌==◌
abbrev pub ◌==◌ {ℓ} : {T : Type ℓ} ⦃test : HasEq T⦄ → T → T → Bool
◌==◌ ⦃test⦄ x y = test.agree x y

-- Equality of two optional values, as of two columns.
abbrev pub same_option {ℓ} : {T : Type ℓ} ⦃test : HasEq T⦄ → Option T → Option T → Bool
same_option none none = true
same_option (some a) (some b) = a == b
same_option _ _ = false

pub same_option-some {ℓ} :
    {T : Type ℓ} ⦃test : HasEq T⦄ (o : Option T) (a : T)
    → same_option o (some a) ≡ true
    → o ≡ some a
same_option-some ⦃test⦄ none a h = cc
same_option-some ⦃test⦄ (some b) a h = ap some ((test.agree_iff b a).0 h)
