-- ===== src/Prelude/Strings.antt =====
-- Building messages: f-strings and slices of texts.
use Prim.Native.Nat.{ℕ, zero, suc, ◌/◌, ◌%◌}
use Prim.Native.Char.{Char, code}
use Prim.Native.String.{String}
use mathlib.Core.List.{List, [], ◌∷◌}
use mathlib.Core.Path.{◌≡◌, refl}
use superset_hardening_loop.Prelude.Tests.{ltb, nat_beq, if◌then◌else◌}

-- `text[:n]`
abbrev pub take_chars : ℕ → String → String
take_chars zero t = String.[]
take_chars (suc n) String.[] = String.[]
take_chars (suc n) (String.◌∷◌ c t) = String.◌∷◌ c (take_chars n t)

-- The pieces of an f-string, joined.
abbrev pub concat : List String → String
concat [] = ""
concat (t ∷ ts) = Prim.Native.String.◌++◌ t (concat ts)

abbrev join_after : String → List String → String
join_after sep [] = ""
join_after sep (t ∷ ts) =
    Prim.Native.String.◌++◌ sep (Prim.Native.String.◌++◌ t (join_after sep ts))

-- `sep.join(ts)`
abbrev pub join : String → List String → String
join sep [] = ""
join sep (t ∷ ts) = Prim.Native.String.◌++◌ t (join_after sep ts)

abbrev digit : ℕ → String
digit zero = "0"
digit (suc zero) = "1"
digit (suc (suc zero)) = "2"
digit (suc (suc (suc zero))) = "3"
digit (suc (suc (suc (suc zero)))) = "4"
digit (suc (suc (suc (suc (suc zero))))) = "5"
digit (suc (suc (suc (suc (suc (suc zero)))))) = "6"
digit (suc (suc (suc (suc (suc (suc (suc zero))))))) = "7"
digit (suc (suc (suc (suc (suc (suc (suc (suc zero)))))))) = "8"
digit _ = "9"

-- The decimal digits; the fuel `n + 1` is more than the number of digits of `n`.
decimal_from : ℕ → ℕ → String
decimal_from zero n = ""
decimal_from (suc fuel) n =
    let shorter = decimal_from fuel (n / 10) in
    if ltb n 10 then digit n else Prim.Native.String.◌++◌ shorter (digit (n % 10))

-- `str(n)` for an integer that is not negative.
unfoldable pub show_nat : ℕ → String
unfolding decimal_from
show_nat n = decimal_from (suc n) n

show_nat_example : show_nat 2050 ≡ "2050"
unfolding show_nat
show_nat_example = refl

-- The ASCII letter `c` in the other case, where `from` and `to` list the letters.
abbrev swap_case : String → String → Char → Char
swap_case (String.◌∷◌ a from) (String.◌∷◌ b to) c =
    if nat_beq (code a) (code c) then b else swap_case from to c
swap_case _ _ c = c

-- `text.lower()` on ASCII.
abbrev pub lower : String → String
lower String.[] = String.[]
lower (String.◌∷◌ c s) =
    String.◌∷◌ (swap_case "ABCDEFGHIJKLMNOPQRSTUVWXYZ" "abcdefghijklmnopqrstuvwxyz" c) (lower s)

-- `repr` of a text without quotes, backslashes and control characters.
abbrev pub repr : String → String
repr s = concat ("'" ∷ s ∷ "'" ∷ [])
