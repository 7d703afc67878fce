-- ===== src/Prelude/Regex.antt =====
-- The part of Python's `re` that the program's patterns use, matched by derivatives.
use Prim.Native.Nat.{ℕ}
use Prim.Native.String.{String}
use mathlib.Core.Bool.{Bool, true, false, ◌&&◌, ◌||◌, not}
use mathlib.Core.List.{List, [], ◌∷◌}
use superset_hardening_loop.Prelude.Tests.{nat_beq, if◌then◌else◌}
use superset_hardening_loop.Prelude.Text.{codes, to_lower}

pub data Regex : Type 0 where
  none_of eps : Regex
  char : (ℕ → Bool) → Regex
  seq alt : Regex → Regex → Regex
  star : Regex → Regex

abbrev pub nullable : Regex → Bool
nullable Regex.none_of = false
nullable Regex.eps = true
nullable (Regex.char p) = false
nullable (Regex.seq r s) = nullable r && nullable s
nullable (Regex.alt r s) = nullable r || nullable s
nullable (Regex.star r) = true

-- What is left to match after one character.
abbrev pub deriv : ℕ → Regex → Regex
deriv c Regex.none_of = Regex.none_of
deriv c Regex.eps = Regex.none_of
deriv c (Regex.char p) = if p c then Regex.eps else Regex.none_of
deriv c (Regex.seq r s) =
    if nullable r then Regex.alt (Regex.seq (deriv c r) s) (deriv c s) else Regex.seq (deriv c r) s
deriv c (Regex.alt r s) = Regex.alt (deriv c r) (deriv c s)
deriv c (Regex.star r) = Regex.seq (deriv c r) (Regex.star r)

-- The whole text fits the pattern.
unfoldable pub full_match : Regex → List ℕ → Bool
full_match r [] = nullable r
full_match r (c ∷ t) = full_match (deriv c r) t

-- `.`, any character but a newline, and any character at all.
abbrev pub dot : Regex
dot = Regex.char (λ c. not (nat_beq c 10))

abbrev pub any_char : Regex
any_char = Regex.char (λ c. true)

abbrev literal_codes : List ℕ → Regex
literal_codes [] = Regex.eps
literal_codes (a ∷ p) = Regex.seq (Regex.char (nat_beq a)) (literal_codes p)

abbrev pub literal : String → Regex
literal p = literal_codes (codes p)

-- A lower-case letter under `re.I`: beside the ASCII pair, `i` matches U+0130 and U+0131, and `s`
-- matches U+017F.
abbrev fold_beq : ℕ → ℕ → Bool
fold_beq a c =
    nat_beq a (to_lower c)
    || nat_beq a b'i' && (nat_beq c 304 || nat_beq c 305)
    || nat_beq a b's' && nat_beq c 383

abbrev folded_codes : List ℕ → Regex
folded_codes [] = Regex.eps
folded_codes (a ∷ p) = Regex.seq (Regex.char (fold_beq a)) (folded_codes p)

-- A literal of lower-case letters and spaces under `re.I`.
abbrev pub folded : String → Regex
folded p = folded_codes (codes p)

abbrev pub optional : Regex → Regex
optional r = Regex.alt r Regex.eps

-- `$`: the end, or the place before a newline at the end.
abbrev pub at_end : Regex
at_end = optional (Regex.char (nat_beq 10))

-- `pattern.search(t)` is not `None`.
unfoldable pub search_in : Regex → List ℕ → Bool
unfolding full_match
search_in r t = full_match (Regex.seq (Regex.star any_char) (Regex.seq r (Regex.star any_char))) t

-- `re.match("^…")` is not `None`: the pattern fits a prefix.
unfoldable pub match_prefix : Regex → List ℕ → Bool
unfolding full_match
match_prefix r t = full_match (Regex.seq r (Regex.star any_char)) t
