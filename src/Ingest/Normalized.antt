-- ===== src/Ingest/Normalized.antt =====
-- `NormalizedFinding` (hardening_loop/ingest/normalize.py).
use superset_hardening_loop.Prelude.{String, Bool, not, Option, List, [], ◌∷◌, ◌++◌}
use superset_hardening_loop.Prelude.Tests.{ltb}
use superset_hardening_loop.Prelude.Equality.{string_eq}
use superset_hardening_loop.Prelude.Lists.{length, is_empty, unique}
use superset_hardening_loop.Prelude.Dict.{Dict, values}
use superset_hardening_loop.Prelude.Json.{Json}
use superset_hardening_loop.Domain.Severity.{Severity}
use superset_hardening_loop.Domain.Scanner.{Scanner, Layer, Ecosystem}

-- `reported_by` is a set: a list that no scanner is added to twice.
pub record NormalizedFinding : Type 0 where
  pub dedupe_key : String
  pub vuln_id : String
  pub is_config : Bool
  pub pkg_name : Option String
  pub pkg_version : Option String
  pub purl : Option String
  pub ecosystem : Ecosystem
  pub layer : Layer
  pub resource : Option String
  pub title : Option String
  pub severity : Severity
  pub severity_by_scanner : Dict String String
  pub fix_versions_by_scanner : Dict String (List String)
  pub fix_state_by_scanner : Dict String String
  pub reported_by : List Scanner
  pub records : Dict String Json

unfoldable pub severity_disagreement : NormalizedFinding → Bool
severity_disagreement f = ltb 1 (length (unique (values f.severity_by_scanner)))

abbrev pub flatten {ℓ} : {A : Type ℓ} → List (List A) → List A
flatten [] = []
flatten (xs ∷ xss) = xs ++ flatten xss

unfoldable pub all_fix_versions : NormalizedFinding → List String
all_fix_versions f = unique (flatten (values f.fix_versions_by_scanner))

unfoldable pub has_fix : NormalizedFinding → Bool
has_fix f = not (is_empty (all_fix_versions f))
