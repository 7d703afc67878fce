-- ===== src/Classify/Group.antt =====
-- `group_findings` with its keys and titles (hardening_loop/classify/group.py).
use superset_hardening_loop.Prelude.{
  ◌-◌, String, Bool, true, false, ◌&&◌, ◌||◌, Option, none, some, List, [], ◌∷◌, ◌++◌, map,
}
use superset_hardening_loop.Prelude.Tests.{ltb, nat_beq, get_or, if◌then◌else◌}
use superset_hardening_loop.Prelude.Equality.{string_eq, ◌==◌}
use superset_hardening_loop.Prelude.Lists.{length, any}
use superset_hardening_loop.Prelude.Strings.{concat, join, show_nat}
use superset_hardening_loop.Prelude.Sorting.{sort_by, sorted_set, string_lt}
use superset_hardening_loop.Domain.Severity.{Severity, rank}
use superset_hardening_loop.Domain.Scanner.{
  Layer, layer_value, Ecosystem, ecosystem_value, in_config_layers,
}
use superset_hardening_loop.Domain.Kind.{Kind, number, Risk}
use superset_hardening_loop.Ingest.Normalized.{NormalizedFinding}
use superset_hardening_loop.Classify.Rules.{Classification}

-- An f-string shows an absent text as `None`.
abbrev shown : Option String → String
shown o = get_or o "None"

unfoldable pub group_key_for : Option Kind → Option String → Ecosystem → Layer → String → String
group_key_for (some Kind.dependency_upgrade) pkg_name ecosystem layer dedupe_key =
    concat ("pypi:" ∷ shown pkg_name ∷ [])
group_key_for (some Kind.no_fix_reachability) pkg_name ecosystem layer dedupe_key =
    concat ("nofix:" ∷ ecosystem_value ecosystem ∷ ":" ∷ shown pkg_name ∷ [])
group_key_for (some Kind.container_hardening) pkg_name ecosystem layer dedupe_key =
    if in_config_layers layer
    then "container:dockerfile"
    else concat ("container:" ∷ layer_value layer ∷ "-packages" ∷ [])
group_key_for (some Kind.scanner_disagreement) pkg_name ecosystem layer dedupe_key =
    concat ("disagreement:" ∷ ecosystem_value ecosystem ∷ ":" ∷ shown pkg_name ∷ [])
group_key_for (some Kind.helm_deploy_config) pkg_name ecosystem layer dedupe_key =
    concat ("deploy:" ∷ layer_value layer ∷ [])
group_key_for none pkg_name ecosystem layer dedupe_key = concat ("unclassified:" ∷ dedupe_key ∷ [])

unfoldable pub group_key : NormalizedFinding → Classification → String
group_key f c = group_key_for c.kind f.pkg_name f.ecosystem f.layer f.dedupe_key

abbrev first_four : List String → List String
first_four (a ∷ b ∷ c ∷ d ∷ rest) = a ∷ b ∷ c ∷ d ∷ []
first_four xs = xs

-- `shown` in `title_for`
abbrev shown_ids : List String → String
shown_ids ids = concat (
    join ", " (first_four ids)
    ∷ (if ltb 4 (length ids)
        then concat (" (+" ∷ show_nat (length ids - 4) ∷ " more)" ∷ [])
        else "")
    ∷ [])

unfoldable pub title_for : Kind → List String → Option String → Option String → Layer → String
title_for Kind.dependency_upgrade vuln_ids pkg_name pkg_version layer = concat (
    "Upgrade "
    ∷ shown pkg_name
    ∷ " "
    ∷ shown pkg_version
    ∷ ": "
    ∷ shown_ids (sorted_set vuln_ids)
    ∷ [])
title_for Kind.no_fix_reachability vuln_ids pkg_name pkg_version layer = concat (
    "Reachability analysis / OpenVEX for "
    ∷ shown pkg_name
    ∷ ": "
    ∷ shown_ids (sorted_set vuln_ids)
    ∷ [])
title_for Kind.container_hardening vuln_ids pkg_name pkg_version layer =
    if in_config_layers layer
    then concat ("Container hardening (Dockerfile): " ∷ shown_ids (sorted_set vuln_ids) ∷ [])
    else concat (
        "Container hardening ("
        ∷ layer_value layer
        ∷ " packages): "
        ∷ shown_ids (sorted_set vuln_ids)
        ∷ [])
title_for Kind.scanner_disagreement vuln_ids pkg_name pkg_version layer =
    concat
      ("Scanner disagreement on " ∷ shown pkg_name ∷ ": " ∷ shown_ids (sorted_set vuln_ids) ∷ [])
title_for Kind.helm_deploy_config vuln_ids pkg_name pkg_version layer = concat (
    "Deployment security configuration ("
    ∷ layer_value layer
    ∷ "): "
    ∷ shown_ids (sorted_set vuln_ids)
    ∷ [])

abbrev pub Item : Type 0
Item = NormalizedFinding × Classification

-- A bucket holds an item from the start, so it is its first item and the later ones.
pub record Bucket : Type 0 where
  pub kind : Kind
  pub key : String
  pub first : Item
  pub later : List Item

abbrev pub items_of : Bucket → List Item
items_of b = b.first ∷ b.later

unfoldable pub group_title : Kind → NormalizedFinding → List NormalizedFinding → String
group_title kind first later =
    title_for kind (map (λ (m : NormalizedFinding). m.vuln_id) (first ∷ later)) first.pkg_name
      first.pkg_version first.layer

pub record WorkItemCandidate : Type 0 where
  pub kind : Kind
  pub group_key : String
  pub title : String
  pub severity : Severity
  pub risk : Risk
  pub layer : Layer
  pub members : List NormalizedFinding

-- `buckets[(c.kind, group_key(f, c))].append((f, c))`
unfoldable pub add_to_bucket : Kind → String → Item → List Bucket → List Bucket
add_to_bucket kind key item [] = record { kind = kind; key = key; first = item; later = [] } ∷ []
add_to_bucket kind key item (b ∷ bs) =
    let rest = add_to_bucket kind key item bs in
    if nat_beq (number b.kind) (number kind) && b.key == key
    then record b { later = b.later ++ item ∷ [] } ∷ bs
    else b ∷ rest

-- The first loop: the buckets and the unclassified findings so far.
unfoldable pub fill_buckets : List Item → List Bucket → List Item → List Bucket × List Item
fill_buckets [] buckets unclassified = (buckets, unclassified)
fill_buckets ((f, c) ∷ rest) buckets unclassified = elim c.kind [
  | none ↦ fill_buckets rest buckets (unclassified ++ (f, c) ∷ [])
  | some kind ↦ fill_buckets rest (add_to_bucket kind (group_key f c) (f, c) buckets) unclassified
]

-- `max(severities, key=rank)`: the first of the highest.
abbrev pub max_severity : Severity → List Severity → Severity
max_severity best [] = best
max_severity best (s ∷ ss) = max_severity (if ltb (rank best) (rank s) then s else best) ss

abbrev pub is_high_risk : Item → Bool
is_high_risk (f, c) = elim c.risk [ Risk.high ↦ true | Risk.normal ↦ false ]

abbrev pub finding_of : Item → NormalizedFinding
finding_of (f, c) = f

-- The body of the second loop.
unfoldable pub candidate_of : Bucket → WorkItemCandidate
candidate_of b =
    let first = finding_of b.first in
    let later = map finding_of b.later in
    record {
      kind = b.kind;
      group_key = b.key;
      title = group_title b.kind first later;
      severity = max_severity first.severity (map (λ (f : NormalizedFinding). f.severity) later);
      risk = if any is_high_risk (items_of b) then Risk.high else Risk.normal;
      layer = first.layer;
      members = first ∷ later;
    }

-- The order of `(kind, key)`.
abbrev pub bucket_lt : Bucket → Bucket → Bool
bucket_lt a b =
    ltb (number a.kind) (number b.kind)
    || nat_beq (number a.kind) (number b.kind) && string_lt a.key b.key

unfoldable pub group_findings : List Item → List WorkItemCandidate × List Item
group_findings classified =
    let filled = fill_buckets classified [] [] in
    (map candidate_of (sort_by bucket_lt filled.0), filled.1)
