-- ===== src/Prelude/Text.antt =====
-- Text as code points, for the places where the program looks inside a `str`.
use Prim.Native.Nat.{ℕ, ◌+◌, ◌-◌}
use Prim.Native.Char.{code}
use Prim.Native.String.{String}
use mathlib.Core.Bool.{Bool, true, false, ◌&&◌, ◌||◌}
use mathlib.Core.List.{List, [], ◌∷◌}
use superset_hardening_loop.Prelude.Tests.{nat_beq, ltb, leb, if◌then◌else◌}

abbrev pub codes : String → List ℕ
codes String.[] = []
codes (String.◌∷◌ c s) = code c ∷ codes s

-- `str.upper` and `str.lower` on one ASCII character.
abbrev pub to_upper : ℕ → ℕ
to_upper c = if leb b'a' c && leb c b'z' then c - 32 else c

abbrev pub to_lower : ℕ → ℕ
to_lower c = if leb b'A' c && leb c b'Z' then c + 32 else c

abbrev pub codes_beq : List ℕ → List ℕ → Bool
codes_beq [] [] = true
codes_beq (a ∷ s) (b ∷ t) = nat_beq a b && codes_beq s t
codes_beq _ _ = false

-- `s.startswith(p)`
abbrev pub starts_with : List ℕ → List ℕ → Bool
starts_with s [] = true
starts_with [] (b ∷ p) = false
starts_with (a ∷ s) (b ∷ p) = nat_beq a b && starts_with s p

-- `p in s`
abbrev pub has_infix : List ℕ → List ℕ → Bool
has_infix p [] = starts_with [] p
has_infix p (a ∷ s) = starts_with (a ∷ s) p || has_infix p s

-- `str.isspace` on one character: what `str.strip` removes.
abbrev pub is_space : ℕ → Bool
is_space c =
    leb 9 c && leb c 13
    || leb 28 c && leb c 32
    || nat_beq c 133
    || nat_beq c 160
    || nat_beq c 5760
    || leb 8192 c && leb c 8202
    || nat_beq c 8232
    || nat_beq c 8233
    || nat_beq c 8239
    || nat_beq c 8287
    || nat_beq c 12288

-- `bool(s.strip())`: some character is left.
abbrev pub has_content : List ℕ → Bool
has_content [] = false
has_content (c ∷ s) = if is_space c then has_content s else true

-- Python's order of texts: by code points.
abbrev pub codes_lt : List ℕ → List ℕ → Bool
codes_lt s [] = false
codes_lt [] (b ∷ t) = true
codes_lt (a ∷ s) (b ∷ t) = ltb a b || nat_beq a b && codes_lt s t
