-- ===== src/Depth/Claims.antt =====
-- `claims_from_output` (hardening_loop/verification.py): the tests that a session says it ran.
use superset_hardening_loop.Prelude.{
  ℕ, ◌+◌, String, Bool, true, false, ◌&&◌, Option, none, some, List, [], ◌∷◌,
}
use superset_hardening_loop.Prelude.Tests.{leb, nat_beq, if◌then◌else◌}
use superset_hardening_loop.Prelude.Text.{codes}
use superset_hardening_loop.Prelude.Strings.{concat, join, repr, show_nat, take_chars}
use superset_hardening_loop.Prelude.Json.{Json, Items, Fields, get, is_empty_dict}
use superset_hardening_loop.Depth.Ladder.{VerificationDepth, CheckStatus, CheckSource}
use superset_hardening_loop.Depth.Evaluate.{CheckRecord}

-- No digit but 0 before an exponent.
abbrev zero_digits : List ℕ → Bool
zero_digits [] = true
zero_digits (c ∷ cs) =
    if nat_beq c b'e'
    then true
    else if nat_beq c b'E'
    then true
    else if leb b'1' c && leb c b'9'
    then false
    else zero_digits cs

-- `value == 0` in Python, where `False` is 0.
abbrev pub is_zero : Option Json → Bool
is_zero (some (Json.number t)) = zero_digits (codes t)
is_zero (some (Json.boolean b)) = if b then false else true
is_zero _ = false

unfoldable mutual
  -- `repr(value)`; a number shows as its literal.
  pub repr_json : Json → String
  repr_json Json.null = "None"
  repr_json (Json.boolean b) = if b then "True" else "False"
  repr_json (Json.number t) = t
  repr_json (Json.text t) = repr t
  repr_json (Json.array xs) = concat ("[" ∷ join ", " (repr_items xs) ∷ "]" ∷ [])
  repr_json (Json.object d) = concat ("{" ∷ join ", " (repr_fields d) ∷ "}" ∷ [])

  pub repr_items : Items → List String
  repr_items Items.nil = []
  repr_items (Items.cons x xs) = repr_json x ∷ repr_items xs

  pub repr_fields : Fields → List String
  repr_fields Fields.end = []
  repr_fields (Fields.field k v d) = concat (repr k ∷ ": " ∷ repr_json v ∷ []) ∷ repr_fields d

-- `str(value)`
abbrev pub str : Json → String
str (Json.text t) = t
str v = repr_json v

abbrev pub claim_of : ℕ → Fields → CheckRecord
claim_of i item =
    let code = get item "exit_code" in
    let shown_code : String = elim code [ none ↦ "None" | some c ↦ str c ] in
    let command : String = elim (get item "command") [
      | none ↦ ""
      | some c ↦ take_chars 200 (str c)
    ] in
    record {
      depth = VerificationDepth.targeted_unit;
      name = concat ("devin-tests-run-" ∷ show_nat (i + 1) ∷ []);
      source = CheckSource.devin_claim;
      status = if is_zero code then CheckStatus.passed else CheckStatus.failed;
      detail = concat ("exit " ∷ shown_code ∷ ": " ∷ command ∷ []);
      url = none;
    }

-- The loop, from the index `i` on.
unfoldable pub claims_from : ℕ → Items → List CheckRecord
claims_from i Items.nil = []
claims_from i (Items.cons (Json.object item) xs) = claim_of i item ∷ claims_from (i + 1) xs
claims_from i (Items.cons _ xs) = claims_from (i + 1) xs

abbrev items_of : Option Json → Items
items_of (some (Json.array xs)) = xs
items_of _ = Items.nil

unfoldable pub claims_from_output : Option Fields → List CheckRecord
claims_from_output none = []
claims_from_output (some output) =
    if is_empty_dict output then [] else claims_from 0 (items_of (get output "tests_run"))
