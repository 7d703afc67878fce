-- ===== src/Ingest/Merge.antt =====
-- `normalize` (hardening_loop/ingest/normalize.py): the records of one key become one finding. The
-- finding that the loop mutates in place is stored again under its key.
use superset_hardening_loop.Prelude.{
  String, Bool, true, false, Option, none, some, List, [], ◌∷◌, ◌++◌,
}
use superset_hardening_loop.Prelude.Tests.{ltb, get_or, if◌then◌else◌}
use superset_hardening_loop.Prelude.Equality.{string_eq}
use superset_hardening_loop.Prelude.Lists.{contains, is_empty}
use superset_hardening_loop.Prelude.Dict.{Dict, values, lookup, insert}
use superset_hardening_loop.Prelude.Text.{codes}
use superset_hardening_loop.Prelude.Sorting.{sort_by, string_lt}
use superset_hardening_loop.Domain.Severity.{Severity, rank, value}
use superset_hardening_loop.Domain.Scanner.{Scanner, scanner_value, scanner_eq, Ecosystem}
use superset_hardening_loop.Ingest.Records.{
  RawVuln, canonical_id, normalized_pkg_name, vuln_dedupe_key, RawConfigFinding, config_dedupe_key,
}
use superset_hardening_loop.Ingest.Normalized.{NormalizedFinding}

-- The new finding of a vulnerability.
unfoldable pub new_vuln : RawVuln → NormalizedFinding
new_vuln rv = record {
  dedupe_key = vuln_dedupe_key rv;
  vuln_id = canonical_id rv;
  is_config = false;
  pkg_name = some (normalized_pkg_name rv);
  pkg_version = some rv.pkg_version;
  purl = rv.purl;
  ecosystem = rv.ecosystem;
  layer = rv.layer;
  resource = none;
  title = rv.title;
  severity = Severity.unknown;
  severity_by_scanner = [];
  fix_versions_by_scanner = [];
  fix_state_by_scanner = [];
  reported_by = [];
  records = [];
}

-- `if field is None and new: field = new`
abbrev fill : Option String → Option String → Option String
fill (some old) new = some old
fill none none = none
fill none (some new) = if is_empty (codes new) then none else some new

-- `reported_by.add(scanner)`
abbrev pub add_scanner : Scanner → List Scanner → List Scanner
add_scanner s ss = if contains ss s then ss else ss ++ s ∷ []

abbrev pub raise_severity : Severity → Severity → Severity
raise_severity new old = if ltb (rank old) (rank new) then new else old

-- The body of the first loop, on the finding of the record's key.
unfoldable pub absorb_vuln : RawVuln → NormalizedFinding → NormalizedFinding
absorb_vuln rv nf = record nf {
  title = fill nf.title rv.title;
  purl = fill nf.purl rv.purl;
  reported_by = add_scanner rv.scanner nf.reported_by;
  severity_by_scanner =
      insert (scanner_value rv.scanner) (value rv.severity) nf.severity_by_scanner;
  fix_versions_by_scanner =
      insert (scanner_value rv.scanner) rv.fixed_versions nf.fix_versions_by_scanner;
  fix_state_by_scanner = insert (scanner_value rv.scanner) rv.fix_state nf.fix_state_by_scanner;
  records = insert (scanner_value rv.scanner) rv.content nf.records;
  severity = raise_severity rv.severity nf.severity;
}

abbrev pub Merged : Type 0
Merged = Dict String NormalizedFinding

unfoldable pub merge_vuln : Merged → RawVuln → Merged
merge_vuln merged rv =
    let key = vuln_dedupe_key rv in
    insert key (absorb_vuln rv (get_or (lookup key merged) (new_vuln rv))) merged

unfoldable pub merge_vulns : Merged → List RawVuln → Merged
merge_vulns merged [] = merged
merge_vulns merged (rv ∷ rvs) = merge_vulns (merge_vuln merged rv) rvs

-- The new finding of a configuration rule.
unfoldable pub new_config : RawConfigFinding → NormalizedFinding
new_config rc = record {
  dedupe_key = config_dedupe_key rc;
  vuln_id = rc.rule_id;
  is_config = true;
  pkg_name = none;
  pkg_version = none;
  purl = none;
  ecosystem = Ecosystem.config;
  layer = rc.layer;
  resource = some rc.resource;
  title = rc.title;
  severity = rc.severity;
  severity_by_scanner = [];
  fix_versions_by_scanner = [];
  fix_state_by_scanner = [];
  reported_by = [];
  records = [];
}

-- The body of the second loop.
unfoldable pub absorb_config : RawConfigFinding → NormalizedFinding → NormalizedFinding
absorb_config rc nf = record nf {
  reported_by = add_scanner rc.scanner nf.reported_by;
  severity_by_scanner =
      insert (scanner_value rc.scanner) (value rc.severity) nf.severity_by_scanner;
  fix_state_by_scanner =
      insert (scanner_value rc.scanner) (if rc.fix_available then "fixed" else "unknown")
        nf.fix_state_by_scanner;
  records = insert (scanner_value rc.scanner) rc.content nf.records;
}

unfoldable pub merge_config : Merged → RawConfigFinding → Merged
merge_config merged rc =
    let key = config_dedupe_key rc in
    insert key (absorb_config rc (get_or (lookup key merged) (new_config rc))) merged

unfoldable pub merge_configs : Merged → List RawConfigFinding → Merged
merge_configs merged [] = merged
merge_configs merged (rc ∷ rcs) = merge_configs (merge_config merged rc) rcs

abbrev pub key_lt : NormalizedFinding → NormalizedFinding → Bool
key_lt f g = string_lt f.dedupe_key g.dedupe_key

unfoldable pub normalize : List RawVuln → List RawConfigFinding → List NormalizedFinding
normalize vulns configs = sort_by key_lt (values (merge_configs (merge_vulns [] vulns) configs))
