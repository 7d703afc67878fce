-- ===== src/Engine/Recorded.antt =====
-- What the rows of check runs say after `_record_checks` (hardening_loop/orchestrator/engine.py).
use superset_hardening_loop.Prelude.{
  ℕ, String, ◌≡◌, refl, sym, ap, ◌∙◌, inl, inr, true, false, Option, none, some, List, [], ◌∷◌,
  arith,
}
use superset_hardening_loop.Prelude.Tests.{if◌then◌else◌, Bool-cases}
use superset_hardening_loop.Prelude.Equality.{string_eq, ◌==◌}
use superset_hardening_loop.Depth.Ladder.{CheckRun}
use superset_hardening_loop.Engine.World.{PrCheck}
use superset_hardening_loop.Engine.Record.{record_check, record_checks, check_named}

-- What GitHub said of a check: its status, conclusion and address.
abbrev pub Said : Type 0
Said = String × Option String × Option String

abbrev pub said_of_row : Option PrCheck → Option Said
said_of_row none = none
said_of_row (some row) = some (row.status, row.conclusion, row.url)

abbrev pub said_of_run : CheckRun → Said
said_of_run c = (c.status, c.conclusion, c.url)

-- The last run with a name says what holds, and without one what held before.
abbrev pub last_said : String → List CheckRun → Option Said → Option Said
last_said name [] before = before
last_said name (c ∷ cs) before =
    last_said name cs (if c.name == name then some (said_of_run c) else before)

heads_apart : (a b c : String) → (b == c) ≡ false → (a == b) ≡ true → (a == c) ≡ false
heads_apart a b c h e = ap (λ x. x == c) ((string_eq.agree_iff a b).0 e) ∙ h

names_apart : (a b name : String) → (a == b) ≡ false → (a == name) ≡ true → (b == name) ≡ false
names_apart a b name h e =
    let is_name : a ≡ name = (string_eq.agree_iff a name).0 e in
    elim (Bool-cases (b == name)) [
      | inr r ↦ r
      | inl q ↦
          let same : a ≡ b = is_name ∙ sym ((string_eq.agree_iff b name).0 q) in
          absurd (ground (arith, (string_eq.agree_iff a b).1 same))
    ]

record_check-said :
    (now : ℕ) (head name : String) (c : CheckRun) (rows : List PrCheck)
    → said_of_row (check_named head name (record_check now head c rows))
      ≡ (if c.name == name then some (said_of_run c) else said_of_row (check_named head name rows))
unfolding record_check
record_check-said now head name c [] =
    let self = (string_eq.agree_iff head head).1 refl in ground (arith, self)
record_check-said now head name c (row ∷ rows) =
    let later = record_check-said now head name c rows in
    elim (Bool-cases (row.head_sha == head)) [
      | inr e ↦ ground (arith, later)
      | inl e ↦ elim (Bool-cases (row.name == c.name)) [
        | inl n ↦
            let same : (row.name == name) ≡ (c.name == name) =
              ap (λ x. x == name) ((string_eq.agree_iff row.name c.name).0 n) in
            ground (arith, same)
        | inr n ↦
            let apart : (row.name == name) ≡ true → (c.name == name) ≡ false =
              names_apart row.name c.name name n in
            ground (arith, later, apart)
      ]
    ]

record_check-other :
    (now : ℕ) (head other name : String) (c : CheckRun) (rows : List PrCheck)
    → (head == other) ≡ false
    → check_named other name (record_check now head c rows) ≡ check_named other name rows
unfolding record_check
record_check-other now head other name c [] h = ground arith
record_check-other now head other name c (row ∷ rows) h =
    let later = record_check-other now head other name c rows h in
    let apart : (row.head_sha == head) ≡ true → (row.head_sha == other) ≡ false =
      heads_apart row.head_sha head other h in
    ground (arith, later, apart)

-- After the runs of a head are recorded, the row of a name says what the last run with that name said, or
-- what it said before if there is none; the rows of every other head are what they were.
pub record_checks-said :
    (now : ℕ) (head name : String) (cs : List CheckRun) (rows : List PrCheck) (other : String)
    → (head == other) ≡ false
    → (said_of_row (check_named head name (record_checks now head cs rows))
        ≡ last_said name cs (said_of_row (check_named head name rows)))
      × (check_named other name (record_checks now head cs rows) ≡ check_named other name rows)
unfolding record_checks
record_checks-said now head name [] rows other h = (refl, refl)
record_checks-said now head name (c ∷ cs) rows other h =
    let (said, kept) = record_checks-said now head name cs (record_check now head c rows) other h in
    (
      said ∙ ap (last_said name cs) (record_check-said now head name c rows),
      kept ∙ record_check-other now head other name c rows h,
    )
