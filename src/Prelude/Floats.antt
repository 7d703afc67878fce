-- ===== src/Prelude/Floats.antt =====
-- Python's `float`, of which the program uses comparisons, sums, one product and formatting. The
-- type and its operations are a parameter: no law of theirs is assumed.
use Prim.Native.Nat.{ℕ, ◌+◌, ◌*◌, ◌/◌}
use Prim.Native.String.{String}
use mathlib.Core.Bool.{Bool}
use superset_hardening_loop.Prelude.Tests.{ltb, leb}

pub record Floats : Type 1 where
  pub Float : Type 0
  -- `a > b` and `a >= b`
  pub gt : Float → Float → Bool
  pub ge : Float → Float → Bool
  pub add : Float → Float → Float
  pub mul : Float → Float → Float
  -- `float(n)` and the literal `0.9`
  pub of_int : ℕ → Float
  pub nine_tenths : Float
  -- `f"{x:.2f}"`
  pub format2 : Float → String

-- Hundredths, on which tests run.
abbrev pub hundredths : Floats
hundredths = record {
  Float = ℕ;
  gt = λ a b. ltb b a;
  ge = λ a b. leb b a;
  add = λ a b. a + b;
  mul = λ a b. a * b / 100;
  of_int = λ n. n * 100;
  nine_tenths = 90;
  format2 = λ x. "#";
}
