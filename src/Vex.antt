-- ===== src/Vex.antt =====
-- Approved OpenVEX documents (hardening_loop/ingest/vex.py). An error stands for the exception by
-- its cause and the number of its statement.
pub mod Laws
use superset_hardening_loop.Prelude.{
  ℕ, suc, ◌+◌, String, Bool, true, false, ◌&&◌, ◌||◌, Option, none, some, List, [], ◌∷◌,
}
use superset_hardening_loop.Prelude.Tests.{if◌then◌else◌, nat_beq}
use superset_hardening_loop.Prelude.Equality.{string_eq, ◌==◌}
use superset_hardening_loop.Prelude.Lists.{is_empty}
use superset_hardening_loop.Prelude.Text.{codes, starts_with, has_content}
use superset_hardening_loop.Prelude.Regex.{Regex, literal, at_end, full_match}
use superset_hardening_loop.Prelude.Json.{Json, Items, Fields, get, as_text}

pub record VexApproval : Type 0 where
  pub issue_url : String
  pub approved_by : String

pub record VexStatementSummary : Type 0 where
  pub vulnerability : String
  pub products : List String
  pub status : String

pub data VexFault : Type 0 where
  -- `VexEvidenceError`
  not_openvex no_statements : VexFault
  not_object no_vulnerability bad_status product_without_id no_products : ℕ → VexFault
  -- `TypeError`: a list or a dictionary is looked up in a frozenset.
  unhashable : ℕ → VexFault

pub data Checked {ℓ} (A : Type ℓ) : Type ℓ where
  ok : A → Checked A
  fault : VexFault → Checked A

infixl 5 ◌>>=◌
abbrev pub ◌>>=◌ {ℓ κ} : {A : Type ℓ} {B : Type κ} → Checked A → (A → Checked B) → Checked B
Checked.ok a >>= f = f a
Checked.fault e >>= f = Checked.fault e

abbrev pub as_object : Option Json → Option Fields
as_object (some (Json.object d)) = some d
as_object _ = none

-- `value if isinstance(value, str) and value else None`
abbrev pub non_empty : Option String → Option String
non_empty none = none
non_empty (some t) = if is_empty (codes t) then none else some t

-- `value in _SUPPRESSING_STATUSES` for a text.
abbrev pub in_suppressing_statuses : String → Bool
in_suppressing_statuses t = t == "not_affected" || t == "fixed"

-- `vuln.get("name") if isinstance(vuln, dict) else None`, if it is a text that is not empty.
unfoldable pub name_of : Fields → Option String
name_of st = elim (as_object (get st "vulnerability")) [
  | none ↦ none
  | some vuln ↦ non_empty (as_text (get vuln "name"))
]

-- The test of the status of statement `i`.
unfoldable pub status_of : ℕ → Fields → Checked String
status_of i st = elim (get st "status") [
  | some v ↦ elim v [
    | Json.text t ↦
        if in_suppressing_statuses t then Checked.ok t else Checked.fault (VexFault.bad_status i)
    | Json.array xs ↦ Checked.fault (VexFault.unhashable i)
    | Json.object d ↦ Checked.fault (VexFault.unhashable i)
    | _ ↦ Checked.fault (VexFault.bad_status i)
  ]
  | none ↦ Checked.fault (VexFault.bad_status i)
]

-- `p.get("@id") if isinstance(p, dict) else None`, if it is a text that is not empty.
unfoldable pub product_id : Json → Option String
product_id p = elim (as_object (some p)) [
  | none ↦ none
  | some d ↦ non_empty (as_text (get d "@id"))
]

-- The loop over the products.
unfoldable pub product_ids : ℕ → Items → Checked (List String)
unfolding product_id
product_ids i Items.nil = Checked.ok []
product_ids i (Items.cons p ps) =
    let rest = product_ids i ps in
    elim (product_id p) [
      | none ↦ Checked.fault (VexFault.product_without_id i)
      | some pid ↦ rest >>= λ ids. Checked.ok (pid ∷ ids)
    ]

-- `products if isinstance(products, list) else []`
abbrev pub as_items : Option Json → Items
as_items (some (Json.array xs)) = xs
as_items _ = Items.nil

-- One round of the loop over the statements.
unfoldable pub statement : ℕ → Json → Checked VexStatementSummary
unfolding name_of status_of product_ids
statement i v = elim (as_object (some v)) [
  | none ↦ Checked.fault (VexFault.not_object i)
  | some st ↦ elim (name_of st) [
    | none ↦ Checked.fault (VexFault.no_vulnerability i)
    | some name ↦ status_of i st >>= λ status.
        product_ids i (as_items (get st "products")) >>= λ ids.
        if is_empty ids
        then Checked.fault (VexFault.no_products i)
        else Checked.ok (record { vulnerability = name; products = ids; status = status })
  ]
]

unfoldable pub statements_from : ℕ → Items → Checked (List VexStatementSummary)
unfolding statement
statements_from i Items.nil = Checked.ok []
statements_from i (Items.cons v vs) =
    let rest = statements_from (suc i) vs in
    statement i v >>= λ s. rest >>= λ ss. Checked.ok (s ∷ ss)

-- `isinstance(context, str) and context.startswith("https://openvex.dev/ns/")`
abbrev pub is_openvex_context : Option String → Bool
is_openvex_context none = false
is_openvex_context (some c) = starts_with (codes c) (codes "https://openvex.dev/ns/")

-- The loop over a list of statements that is not empty.
unfoldable pub all_statements : Items → Checked (List VexStatementSummary)
unfolding statements_from
all_statements Items.nil = Checked.fault VexFault.no_statements
all_statements (Items.cons v vs) = statements_from 0 (Items.cons v vs)

unfoldable pub validate_openvex : Fields → Checked (List VexStatementSummary)
unfolding all_statements
validate_openvex doc =
    if is_openvex_context (as_text (get doc "@context"))
    then all_statements (as_items (get doc "statements"))
    else Checked.fault VexFault.not_openvex

-- `\w` and `\d`, as the Unicode tables of `re` decide them.
pub record CharClasses : Type 0 where
  pub is_word : ℕ → Bool
  pub is_digit : ℕ → Bool

module _ (cs : CharClasses) where
  abbrev slug_char : Regex
  slug_char = Regex.char (λ c. cs.is_word c || nat_beq c b'.' || nat_beq c b'-')

  abbrev one_or_more : Regex → Regex
  one_or_more r = Regex.seq r (Regex.star r)

  -- `_ISSUE_URL`
  abbrev issue_url_pattern : Regex
  issue_url_pattern = Regex.seq (literal "https://github.com/") (
      Regex.seq (one_or_more slug_char) (
        Regex.seq (literal "/") (
          Regex.seq (one_or_more slug_char) (
            Regex.seq (literal "/issues/")
              (Regex.seq (one_or_more (Regex.char cs.is_digit)) at_end)))))

  -- `approval_of`. The pydantic model wants both fields to be texts.
  unfoldable pub approval_of : Fields → Option VexApproval
  approval_of doc = elim (as_object (get doc "x-approval")) [
    | none ↦ none
    | some raw ↦ elim (as_text (get raw "issue_url")) [
      | none ↦ none
      | some url ↦ elim (as_text (get raw "approved_by")) [
        | none ↦ none
        | some who ↦
            if full_match issue_url_pattern (codes url) && has_content (codes who)
            then some (record { issue_url = url; approved_by = who })
            else none
      ]
    ]
  ]
