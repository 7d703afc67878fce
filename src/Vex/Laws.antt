-- ===== src/Vex/Laws.antt =====
-- What a validated OpenVEX document guarantees (hardening_loop/ingest/vex.py).
use superset_hardening_loop.Prelude.{
  ℕ, suc, String, ◌≡◌, refl, ap, ◌∙◌, true, false, Option, none, some, List, [], ◌∷◌, inl, inr, ◌⊎◌,
  arith,
}
use superset_hardening_loop.Prelude.Tests.{if◌then◌else◌, Bool-cases, Option-cases}
use superset_hardening_loop.Prelude.Equality.{string_eq, ◌==◌}
use superset_hardening_loop.Prelude.Lists.{is_empty}
use superset_hardening_loop.Prelude.Json.{Json, Items, Fields, as_text, get}
use superset_hardening_loop.Vex.{
  VexStatementSummary, VexFault, as_items, as_object, non_empty, Checked, ◌>>=◌,
  in_suppressing_statuses, name_of, status_of, product_id, product_ids, statement, statements_from,
  all_statements, is_openvex_context, validate_openvex,
}

-- The products of a statement name the identifiers, one by one.
abbrev pub Names : Items → List String → Type 0
Names Items.nil [] = Unit
Names (Items.cons p ps) (i ∷ ids) =
    ((d : Fields) × (p ≡ Json.object d) × (get d "@id" ≡ some (Json.text i))) × Names ps ids
Names _ _ = ⊥

-- A statement of a document says that a vulnerability does not count for some products.
abbrev pub Suppresses : Json → VexStatementSummary → Type 0
Suppresses v s =
    (st : Fields) × ((v ≡ Json.object st)
      × ((vuln : Fields) × (get st "vulnerability" ≡ some (Json.object vuln))
          × (get vuln "name" ≡ some (Json.text s.vulnerability)))
      × (get st "status" ≡ some (Json.text s.status))
      × ((s.status ≡ "not_affected") ⊎ (s.status ≡ "fixed"))
      × ((products : Items) × (get st "products" ≡ some (Json.array products))
          × Names products s.products)
      × (is_empty s.products ≡ false))

-- Each statement, in its order, has its summary, and there is no other.
abbrev pub AllSuppress : Items → List VexStatementSummary → Type 0
AllSuppress Items.nil [] = Unit
AllSuppress (Items.cons v vs) (s ∷ ss) = Suppresses v s × AllSuppress vs ss
AllSuppress _ _ = ⊥

AllSuppress-is_empty :
    (v : Json) (vs : Items) (ss : List VexStatementSummary)
    → AllSuppress (Items.cons v vs) ss
    → is_empty ss ≡ false
AllSuppress-is_empty v vs [] h = absurd h
AllSuppress-is_empty v vs (s ∷ ss) h = refl

bind-eq-ok {ℓ κ} :
    {A : Type ℓ} {B : Type κ} (m : Checked A) (f : A → Checked B) {b : B}
    → (m >>= f) ≡ Checked.ok b
    → (a : A) × (m ≡ Checked.ok a) × (f a ≡ Checked.ok b)
bind-eq-ok (Checked.ok a) f h = (a, refl, h)
bind-eq-ok (Checked.fault e) f h = cc

as_object-some : (o : Option Json) {d : Fields} → as_object o ≡ some d → o ≡ some (Json.object d)
as_object-some none h = cc
as_object-some (some Json.null) h = cc
as_object-some (some (Json.boolean b)) h = cc
as_object-some (some (Json.number t)) h = cc
as_object-some (some (Json.text t)) h = cc
as_object-some (some (Json.array xs)) h = cc
as_object-some (some (Json.object e)) h = cc

as_text-some : (o : Option Json) {t : String} → as_text o ≡ some t → o ≡ some (Json.text t)
as_text-some none h = cc
as_text-some (some Json.null) h = cc
as_text-some (some (Json.boolean b)) h = cc
as_text-some (some (Json.number t)) h = cc
as_text-some (some (Json.text t)) h = cc
as_text-some (some (Json.array xs)) h = cc
as_text-some (some (Json.object e)) h = cc

non_empty-some : (o : Option String) {t : String} → non_empty o ≡ some t → o ≡ some t
non_empty-some none h = cc
non_empty-some (some u) h = ground arith

name_of-some :
    (st : Fields) {name : String}
    → name_of st ≡ some name
    → (vuln : Fields) × (get st "vulnerability" ≡ some (Json.object vuln))
      × (get vuln "name" ≡ some (Json.text name))
unfolding name_of
name_of-some st {name} h = elim (Option-cases (as_object (get st "vulnerability"))) [
  | inl e ↦ absurd (ground arith)
  | inr (vuln, e) ↦
      let text : non_empty (as_text (get vuln "name")) ≡ some name = ground arith in
      (
        vuln,
        as_object-some (get st "vulnerability") e,
        as_text-some (get vuln "name") (non_empty-some (as_text (get vuln "name")) text),
      )
]

suppressing_status :
    (t : String) → in_suppressing_statuses t ≡ true → (t ≡ "not_affected") ⊎ (t ≡ "fixed")
suppressing_status t h = elim (Bool-cases (t == "not_affected")) [
  | inl e ↦ inl ((string_eq.agree_iff t "not_affected").0 e)
  | inr e ↦
      let fixed : (t == "fixed") ≡ true = ground arith in
      inr ((string_eq.agree_iff t "fixed").0 fixed)
]

status_of-some :
    (i : ℕ) (st : Fields) (v : Json) {status : String}
    → get st "status" ≡ some v
    → status_of i st ≡ Checked.ok status
    → (v ≡ Json.text status) × (in_suppressing_statuses status ≡ true)
unfolding status_of
status_of-some i st (Json.text t) e h = elim (Bool-cases (in_suppressing_statuses t)) [
  | inr out ↦ absurd (ground arith)
  | inl inside ↦ ground arith
]
status_of-some i st (Json.null) e h = absurd (ground arith)
status_of-some i st (Json.boolean b) e h = absurd (ground arith)
status_of-some i st (Json.number t) e h = absurd (ground arith)
status_of-some i st (Json.array xs) e h = absurd (ground arith)
status_of-some i st (Json.object d) e h = absurd (ground arith)

status_of-ok :
    (i : ℕ) (st : Fields) {status : String}
    → status_of i st ≡ Checked.ok status
    → (get st "status" ≡ some (Json.text status)) × ((status ≡ "not_affected") ⊎ (status ≡ "fixed"))
unfolding status_of
status_of-ok i st {status} h = elim (Option-cases (get st "status")) [
  | inl e ↦ absurd (ground arith)
  | inr (v, e) ↦
      let (text, inside) = status_of-some i st v e h in
      (e ∙ ap some text, suppressing_status status inside)
]

product_id-some :
    (p : Json) {t : String}
    → product_id p ≡ some t
    → (d : Fields) × (p ≡ Json.object d) × (get d "@id" ≡ some (Json.text t))
unfolding product_id
product_id-some p {t} h = elim (Option-cases (as_object (some p))) [
  | inl e ↦ absurd (ground arith)
  | inr (d, e) ↦
      let object : p ≡ Json.object d = ground (arith, as_object-some (some p) e) in
      let text : non_empty (as_text (get d "@id")) ≡ some t = ground arith in
      (d, object, as_text-some (get d "@id") (non_empty-some (as_text (get d "@id")) text))
]

product_ids-Names :
    (i : ℕ) (ps : Items) {ids : List String} → product_ids i ps ≡ Checked.ok ids → Names ps ids
unfolding product_ids
product_ids-Names i Items.nil {ids} h = let none_left : ids ≡ [] = ground arith in rw none_left tt
product_ids-Names i (Items.cons p ps) {ids} h = elim (Option-cases (product_id p)) [
  | inl e ↦ absurd (ground arith)
  | inr (pid, e) ↦
      let bound : (product_ids i ps >>= λ rest. Checked.ok (pid ∷ rest)) ≡ Checked.ok ids =
        ground arith in
      let (rest, er, last) = bind-eq-ok (product_ids i ps) _ bound in
      let split : ids ≡ pid ∷ rest = cc in
      rw split ((product_id-some p e, product_ids-Names i ps er))
]

-- Products that are no list count as an empty one, which names nothing.
as_items-Names :
    (o : Option Json) (ids : List String)
    → Names (as_items o) ids
    → is_empty ids ≡ false
    → (products : Items) × (o ≡ some (Json.array products)) × Names products ids
as_items-Names (some (Json.array xs)) ids h e = (xs, refl, h)
as_items-Names none [] h e = absurd (ground arith)
as_items-Names none (i ∷ ids) h e = absurd h
as_items-Names (some Json.null) [] h e = absurd (ground arith)
as_items-Names (some Json.null) (i ∷ ids) h e = absurd h
as_items-Names (some (Json.boolean b)) [] h e = absurd (ground arith)
as_items-Names (some (Json.boolean b)) (i ∷ ids) h e = absurd h
as_items-Names (some (Json.number t)) [] h e = absurd (ground arith)
as_items-Names (some (Json.number t)) (i ∷ ids) h e = absurd h
as_items-Names (some (Json.text t)) [] h e = absurd (ground arith)
as_items-Names (some (Json.text t)) (i ∷ ids) h e = absurd h
as_items-Names (some (Json.object d)) [] h e = absurd (ground arith)
as_items-Names (some (Json.object d)) (i ∷ ids) h e = absurd h

statement-Suppresses :
    (i : ℕ) (v : Json) {s : VexStatementSummary} → statement i v ≡ Checked.ok s → Suppresses v s
unfolding statement
statement-Suppresses i v {s} h = elim (Option-cases (as_object (some v))) [
  | inl e ↦ absurd (ground arith)
  | inr (st, e) ↦ elim (Option-cases (name_of st)) [
    | inl q ↦ absurd (ground arith)
    | inr (name, q) ↦
        let object : v ≡ Json.object st = ground (arith, as_object-some (some v) e) in
        let bound : (status_of i st >>= λ status.
        product_ids i (as_items (get st "products")) >>= λ ids.
        if is_empty ids
        then Checked.fault (VexFault.no_products i)
        else Checked.ok (record { vulnerability = name; products = ids; status = status }))
            ≡ Checked.ok s =
          ground arith in
        let (status, es, h') = bind-eq-ok (status_of i st) _ bound in
        let (ids, ei, h'') = bind-eq-ok (product_ids i (as_items (get st "products"))) _ h' in
        elim (Bool-cases (is_empty ids)) [
          | inl empty ↦ absurd (ground arith)
          | inr some_id ↦
              let same : s ≡ record { vulnerability = name; products = ids; status = status } =
                ground arith in
              let (text, inside) = status_of-ok i st es in
              let names = product_ids-Names i (as_items (get st "products")) ei in
              let products = as_items-Names (get st "products") ids names some_id in
              rw same ((st, (object, name_of-some st q, text, inside, products, some_id)))
        ]
  ]
]

statements_from-AllSuppress :
    (i : ℕ) (vs : Items) {ss : List VexStatementSummary}
    → statements_from i vs ≡ Checked.ok ss
    → AllSuppress vs ss
unfolding statements_from
statements_from-AllSuppress i Items.nil {ss} h =
    let none_left : ss ≡ [] = ground arith in rw none_left tt
statements_from-AllSuppress i (Items.cons v vs) {ss} h =
    let (s, es, h') = bind-eq-ok (statement i v) _ h in
    let (rest, er, e) = bind-eq-ok (statements_from (suc i) vs) _ h' in
    let split : ss ≡ s ∷ rest = cc in
    rw split ((statement-Suppresses i v es, statements_from-AllSuppress (suc i) vs er))

abbrev pub Statements : Fields → List VexStatementSummary → Type 0
Statements doc ss =
    (vs : Items) × (get doc "statements" ≡ some (Json.array vs))
    × (is_empty ss ≡ false)
    × AllSuppress vs ss

-- The statements of a document are a list that is not empty, and they are those of the summaries.
all_statements-Statements :
    (doc : Fields) (o : Option Json) {ss : List VexStatementSummary}
    → get doc "statements" ≡ o
    → all_statements (as_items o) ≡ Checked.ok ss
    → Statements doc ss
unfolding all_statements
all_statements-Statements doc (some (Json.array Items.nil)) e h = cc
all_statements-Statements doc (some (Json.array (Items.cons v vs))) {ss} e h =
    let found = statements_from-AllSuppress 0 (Items.cons v vs) h in
    (Items.cons v vs, e, AllSuppress-is_empty v vs ss found, found)
all_statements-Statements doc none e h = cc
all_statements-Statements doc (some Json.null) e h = cc
all_statements-Statements doc (some (Json.boolean b)) e h = cc
all_statements-Statements doc (some (Json.number t)) e h = cc
all_statements-Statements doc (some (Json.text t)) e h = cc
all_statements-Statements doc (some (Json.object d)) e h = cc

-- A document that validates has a list of statements that is not empty, and its summaries are those of all
-- the statements, in their order: each statement is an object that names its vulnerability, has the status
-- `not_affected` or `fixed`, and lists at least one product, every one of them by its identifier.
pub validate_openvex_suppresses :
    (doc : Fields) {ss : List VexStatementSummary}
    → validate_openvex doc ≡ Checked.ok ss
    → Statements doc ss
unfolding validate_openvex
validate_openvex_suppresses doc h =
    elim (Bool-cases (is_openvex_context (as_text (get doc "@context")))) [
      | inl e ↦ all_statements-Statements doc (get doc "statements") refl (rw e at h)
      | inr e ↦ let refused = (rw e at h) in cc
    ]
