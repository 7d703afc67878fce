-- ===== src/Ingest/Records.antt =====
-- The records that the parsers produce and their keys (hardening_loop/ingest/records.py). Package
-- names, identifiers and package URLs are ASCII.
use Prim.Native.Char.{Char, code}
use superset_hardening_loop.Prelude.{
  String, ◌≡◌, refl, Bool, true, false, ◌||◌, not, Option, none, some, List, [], ◌∷◌, map,
}
use superset_hardening_loop.Prelude.Tests.{nat_beq, if◌then◌else◌}
use superset_hardening_loop.Prelude.Equality.{string_eq, ◌==◌}
use superset_hardening_loop.Prelude.Lists.{keep_if}
use superset_hardening_loop.Prelude.Text.{codes, to_upper, starts_with}
use superset_hardening_loop.Prelude.Strings.{join, lower}
use superset_hardening_loop.Prelude.Sorting.{sort_by, string_lt}
use superset_hardening_loop.Prelude.Json.{Json}
use superset_hardening_loop.Domain.Severity.{Severity}
use superset_hardening_loop.Domain.Scanner.{Scanner, Layer, layer_value, Ecosystem, ecosystem_value}

-- `[-_.]`
abbrev is_separator : Char → Bool
is_separator c = nat_beq (code c) b'-' || nat_beq (code c) b'_' || nat_beq (code c) b'.'

-- `_PEP503.sub("-", name)`; the flag says that the text before ends in a separator.
abbrev pub collapse : Bool → String → String
collapse after String.[] = String.[]
collapse after (String.◌∷◌ c s) = elim (is_separator c) [
  | true ↦ elim after [ true ↦ collapse true s | false ↦ String.◌∷◌ "-" (collapse true s) ]
  | false ↦ String.◌∷◌ c (collapse false s)
]

unfoldable pub normalize_pkg_name : String → Ecosystem → String
normalize_pkg_name name Ecosystem.pypi = lower (collapse false name)
normalize_pkg_name name _ = name

-- `sorted(c for c in candidates if c.upper().startswith(prefix))`
abbrev pub with_prefix : String → List String → List String
with_prefix prefix candidates =
    sort_by string_lt
      (keep_if (λ c. starts_with (map to_upper (codes c)) (codes prefix)) candidates)

abbrev pub first_or : List String → String → String
first_or [] other = other
first_or (m ∷ ms) other = m

unfoldable pub canonical_vuln_id : String → List String → String
canonical_vuln_id primary aliases =
    first_or (with_prefix "CVE-" (primary ∷ aliases))
      (first_or (with_prefix "GHSA-" (primary ∷ aliases)) primary)

pub record RawVuln : Type 0 where
  pub scanner : Scanner
  pub primary_id : String
  pub aliases : List String
  pub pkg_name : String
  pub pkg_version : String
  pub purl : Option String
  pub ecosystem : Ecosystem
  pub layer : Layer
  pub severity : Severity
  pub fixed_versions : List String
  pub fix_state : String
  pub title : Option String
  pub location : Option String
  pub content : Json

unfoldable pub canonical_id : RawVuln → String
canonical_id v = canonical_vuln_id v.primary_id v.aliases

unfoldable pub normalized_pkg_name : RawVuln → String
normalized_pkg_name v = normalize_pkg_name v.pkg_name v.ecosystem

unfoldable pub vuln_dedupe_key : RawVuln → String
vuln_dedupe_key v = join "|" (
    "vuln"
    ∷ canonical_id v
    ∷ ecosystem_value v.ecosystem
    ∷ normalized_pkg_name v
    ∷ v.pkg_version
    ∷ layer_value v.layer
    ∷ [])

pub record RawConfigFinding : Type 0 where
  pub scanner : Scanner
  pub rule_id : String
  pub resource : String
  pub layer : Layer
  pub severity : Severity
  pub title : Option String
  pub message : Option String
  pub fix_available : Bool
  pub content : Json

unfoldable pub config_dedupe_key : RawConfigFinding → String
config_dedupe_key c = join "|" ("config" ∷ c.rule_id ∷ layer_value c.layer ∷ c.resource ∷ [])

-- `text.split("/", 1)[0]`
abbrev before_slash : String → String
before_slash String.[] = String.[]
before_slash (String.◌∷◌ c s) = elim (nat_beq (code c) b'/') [
  | true ↦ String.[]
  | false ↦ String.◌∷◌ c (before_slash s)
]

-- `purl[4:]`
abbrev drop_four : String → String
drop_four (String.◌∷◌ a (String.◌∷◌ b (String.◌∷◌ c (String.◌∷◌ d s)))) = s
drop_four _ = String.[]

-- `_PURL_TYPE_TO_ECOSYSTEM.get(ptype, Ecosystem.unknown)`
abbrev pub purl_type_to_ecosystem : String → Ecosystem
purl_type_to_ecosystem ptype =
    if ptype == "pypi"
    then Ecosystem.pypi
    else if ptype == "deb"
    then Ecosystem.deb
    else if ptype == "npm"
    then Ecosystem.npm
    else if ptype == "golang"
    then Ecosystem.golang
    else if ptype == "generic"
    then Ecosystem.binary
    else Ecosystem.unknown

unfoldable pub ecosystem_from_purl : Option String → Ecosystem
ecosystem_from_purl none = Ecosystem.unknown
ecosystem_from_purl (some purl) =
    if not (starts_with (codes purl) (codes "pkg:"))
    then Ecosystem.unknown
    else purl_type_to_ecosystem (lower (before_slash (drop_four purl)))

unfoldable pub layer_for : Ecosystem → Layer
layer_for Ecosystem.pypi = Layer.python
layer_for Ecosystem.deb = Layer.os
layer_for _ = Layer.binary

purl_example : ecosystem_from_purl (some "pkg:PyPI/cryptography@1") ≡ Ecosystem.pypi
unfolding ecosystem_from_purl
purl_example = refl

name_example : normalize_pkg_name "Flask_._AppBuilder" Ecosystem.pypi ≡ "flask-appbuilder"
unfolding normalize_pkg_name
name_example = refl

id_example : canonical_vuln_id "GHSA-2" ("CVE-9" ∷ "CVE-3" ∷ []) ≡ "CVE-3"
unfolding canonical_vuln_id
id_example = refl
