-- ===== src/Domain/Severity.antt =====
-- `Severity`, its rank and its parser (hardening_loop/domain/enums.py).
use superset_hardening_loop.Prelude.{
  ℕ, String, ◌≡◌, refl, Bool, true, false, Option, none, some, List, map,
}
use superset_hardening_loop.Prelude.Tests.{if◌then◌else◌}
use superset_hardening_loop.Prelude.Text.{codes, to_upper, to_lower, codes_beq}

pub data Severity : Type 0 where
  critical high medium low unknown : Severity

-- `_SEVERITY_RANK`
abbrev pub rank : Severity → ℕ
rank Severity.unknown = 0
rank Severity.low = 1
rank Severity.medium = 2
rank Severity.high = 3
rank Severity.critical = 4

abbrev pub value : Severity → String
value Severity.critical = "CRITICAL"
value Severity.high = "HIGH"
value Severity.medium = "MEDIUM"
value Severity.low = "LOW"
value Severity.unknown = "UNKNOWN"

-- `cls(text)`: the member whose value is the text, or `ValueError`.
unfoldable pub of_value : List ℕ → Option Severity
of_value t =
    if codes_beq t (codes "CRITICAL")
    then some Severity.critical
    else if codes_beq t (codes "HIGH")
    then some Severity.high
    else if codes_beq t (codes "MEDIUM")
    then some Severity.medium
    else if codes_beq t (codes "LOW")
    then some Severity.low
    else if codes_beq t (codes "UNKNOWN")
    then some Severity.unknown
    else none

-- `Severity.parse`; the texts are ASCII.
unfoldable pub parse : Option (List ℕ) → Severity
unfolding of_value
parse none = Severity.unknown
parse (some raw) = elim (of_value (map to_upper raw)) [
  | some s ↦ s
  | none ↦
      if codes_beq (map to_lower raw) (codes "negligible") then Severity.low else Severity.unknown
]

-- `DISPATCH_DEFAULT_SEVERITIES`, `DEFAULT_DISPATCH_SEVERITIES` and `GATED_SEVERITIES`: the three
-- sets have the same members.
abbrev pub in_default_dispatch : Severity → Bool
in_default_dispatch Severity.high = true
in_default_dispatch Severity.critical = true
in_default_dispatch _ = false

-- A severity's own value, in whatever case each letter is written, parses to that severity.
pub parse-value : (s : Severity) → parse (some (codes (value s))) ≡ s
unfolding parse
parse-value Severity.critical = refl
parse-value Severity.high = refl
parse-value Severity.medium = refl
parse-value Severity.low = refl
parse-value Severity.unknown = refl
