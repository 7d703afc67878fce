-- ===== src/Tests/Triage.antt =====
-- The theorems on normalization, classification and grouping (hardening_loop/ingest/normalize.py,
-- hardening_loop/classify/) at concrete findings.
use superset_hardening_loop.Prelude.{
  ◌+◌, ◌≤◌, String, ◌≡◌, refl, ◌↔◌, true, false, ◌&&◌, none, some, List, [], ◌∷◌, map,
}
use superset_hardening_loop.Prelude.Tests.{is_some}
use superset_hardening_loop.Prelude.Equality.{string_eq, ◌==◌}
use superset_hardening_loop.Prelude.Lists.{any, count}
use superset_hardening_loop.Prelude.Dict.{lookup}
use superset_hardening_loop.Prelude.Json.{Json}
use superset_hardening_loop.Domain.Severity.{Severity}
use superset_hardening_loop.Domain.Scanner.{Scanner, scanner_eq, Layer, Ecosystem}
use superset_hardening_loop.Domain.Kind.{Kind, Risk}
use superset_hardening_loop.Ingest.Records.{
  RawVuln, canonical_vuln_id, canonical_id, normalize_pkg_name, normalized_pkg_name,
  vuln_dedupe_key,
}
use superset_hardening_loop.Ingest.Normalized.{NormalizedFinding, all_fix_versions, has_fix}
use superset_hardening_loop.Ingest.Merge.{merge_vulns}
use superset_hardening_loop.Ingest.Laws.{has_key, reports, merged_scanners}
use superset_hardening_loop.Classify.Rules.{
  Packaging, ClassificationContext, in_deploy_layers, comparable, classify_python,
  classify_compared, classify, fix_allowed_by_bounds, blocking_spec,
}
use superset_hardening_loop.Classify.Kinds.{
  is_no_fix, is_hardening, is_upgrade, first_match, is_disagreement, classify-kind, IsBlocked,
  risk_high_iff,
}
use superset_hardening_loop.Classify.Group.{Item, finding_of, group_findings}
use superset_hardening_loop.Classify.Grouping.{
  members_meeting, grouping_conserves, is_at, grouping_distinct,
}

-- Versions and specifiers as texts: a specifier admits exactly its own text.
abbrev exact : Packaging
exact = record {
  Version = String;
  SpecifierSet = String;
  version = λ t. some t;
  admits = λ spec v. some (spec == v);
  show = λ spec. spec;
}

abbrev report : Scanner → Severity → List String → String → RawVuln
report scanner severity fixes state = record {
  scanner = scanner;
  primary_id = "GHSA-7";
  aliases = "CVE-2024-7" ∷ [];
  pkg_name = "Flask_Login";
  pkg_version = "0.6.0";
  purl = none;
  ecosystem = Ecosystem.pypi;
  layer = Layer.python;
  severity = severity;
  fixed_versions = fixes;
  fix_state = state;
  title = none;
  location = none;
  content = Json.null;
}

abbrev reports_of_both : List RawVuln
reports_of_both =
    report Scanner.trivy Severity.medium ("0.6.3" ∷ []) "fixed"
    ∷ report Scanner.grype Severity.high [] "unknown"
    ∷ []

abbrev key : String
key = "vuln|CVE-2024-7|pypi|flask-login|0.6.0|python"

key_lem : vuln_dedupe_key (report Scanner.trivy Severity.low [] "") ≡ key
unfolding vuln_dedupe_key canonical_id canonical_vuln_id normalized_pkg_name normalize_pkg_name
key_lem = refl

merged_scanners_example :
    reports (lookup key (merge_vulns [] reports_of_both)) Scanner.grype
    ≡ any (λ rv. has_key key rv && rv.scanner == Scanner.grype) reports_of_both
merged_scanners_example = merged_scanners key Scanner.grype reports_of_both

-- Both scanners report the package and Trivy knows a fixed version.
abbrev pub fixable : NormalizedFinding
fixable = record {
  dedupe_key = key;
  vuln_id = "CVE-2024-7";
  is_config = false;
  pkg_name = some "flask-login";
  pkg_version = some "0.6.0";
  purl = none;
  ecosystem = Ecosystem.pypi;
  layer = Layer.python;
  resource = none;
  title = none;
  severity = Severity.high;
  severity_by_scanner = ("trivy", "MEDIUM") ∷ ("grype", "HIGH") ∷ [];
  fix_versions_by_scanner = ("trivy", "0.6.3" ∷ []) ∷ ("grype", []) ∷ [];
  fix_state_by_scanner = ("trivy", "fixed") ∷ ("grype", "unknown") ∷ [];
  reported_by = Scanner.trivy ∷ Scanner.grype ∷ [];
  records = [];
}

-- A system package that nobody has a fix for.
abbrev unfixable : NormalizedFinding
unfixable = record fixable {
  pkg_name = some "zlib1g";
  ecosystem = Ecosystem.deb;
  layer = Layer.os;
  fix_versions_by_scanner = ("trivy", []) ∷ ("grype", []) ∷ [];
  fix_state_by_scanner = ("trivy", "affected") ∷ ("grype", "wont-fix") ∷ [];
}

-- Both jobs succeeded, and the project pins the package to its old version.
abbrev pinned : ClassificationContext exact
pinned = record {
  scanner_job_success = (Scanner.trivy, true) ∷ (Scanner.grype, true) ∷ [];
  upper_bounds = ("flask-login", "0.6.0") ∷ [];
}

pinned_is_blocked : (classify exact fixable pinned).risk ≡ Risk.high
unfolding classify classify_compared classify_python comparable has_fix all_fix_versions
    blocking_spec fix_allowed_by_bounds
pinned_is_blocked = refl

classify-kind_example :
    (classify exact fixable pinned).kind
    ≡ first_match
        (fixable.is_config && in_deploy_layers fixable.layer)
        (is_disagreement exact fixable pinned)
        (is_upgrade fixable)
        (is_no_fix fixable)
        (is_hardening fixable)
classify-kind_example = classify-kind exact fixable pinned

risk_high_iff_example :
    (((classify exact fixable pinned).risk ≡ Risk.high) ↔ (
      ((classify exact fixable pinned).kind ≡ some Kind.dependency_upgrade)
      × IsBlocked exact fixable pinned))
    × (((classify exact fixable pinned).risk ≡ Risk.high)
        ↔ ((classify exact fixable pinned).bound_blocked ≡ true))
risk_high_iff_example = risk_high_iff exact fixable pinned

abbrev classified : List Item
classified =
    (fixable, classify exact fixable pinned) ∷ (unfixable, classify exact unfixable pinned) ∷ []

grouping_conserves_example :
    members_meeting (λ f. is_some f.pkg_name) (group_findings classified).0
      + count (λ f. is_some f.pkg_name) (map finding_of (group_findings classified).1)
    ≡ count (λ f. is_some f.pkg_name) (map finding_of classified)
grouping_conserves_example = grouping_conserves (λ f. is_some f.pkg_name) classified

grouping_distinct_example :
    count (is_at Kind.dependency_upgrade "pypi:flask-login") (group_findings classified).0 ≤ 1
grouping_distinct_example = grouping_distinct Kind.dependency_upgrade "pypi:flask-login" classified
