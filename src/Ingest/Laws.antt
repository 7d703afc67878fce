-- ===== src/Ingest/Laws.antt =====
-- What the merge of scanner records keeps of them (hardening_loop/ingest/normalize.py).
use superset_hardening_loop.Prelude.{
  ℕ, max, String, ◌≡◌, ap, Bool, false, ◌&&◌, ◌||◌, Option, none, some, List, [], ◌∷◌, ◌++◌, arith,
}
use superset_hardening_loop.Prelude.Tests.{get_or, if◌then◌else◌}
use superset_hardening_loop.Prelude.Equality.{string_eq, ◌==◌}
use superset_hardening_loop.Prelude.Lists.{any, contains}
use superset_hardening_loop.Prelude.Dict.{lookup, lookup-insert}
use superset_hardening_loop.Domain.Severity.{Severity, rank}
use superset_hardening_loop.Domain.Scanner.{Scanner, scanner_eq}
use superset_hardening_loop.Ingest.Records.{RawVuln, vuln_dedupe_key}
use superset_hardening_loop.Ingest.Normalized.{NormalizedFinding}
use superset_hardening_loop.Ingest.Merge.{
  new_vuln, add_scanner, raise_severity, absorb_vuln, Merged, merge_vuln, merge_vulns,
}

abbrev pub has_key : String → RawVuln → Bool
has_key key rv = vuln_dedupe_key rv == key

-- One step of the merge, seen from one key.
abbrev absorb : String → Option NormalizedFinding → RawVuln → Option NormalizedFinding
absorb key found rv =
    if has_key key rv then some (absorb_vuln rv (get_or found (new_vuln rv))) else found

lookup-merge_vuln :
    (key : String) (merged : Merged) (rv : RawVuln)
    → lookup key (merge_vuln merged rv) ≡ absorb key (lookup key merged) rv
unfolding merge_vuln
lookup-merge_vuln key merged rv =
    let own = vuln_dedupe_key rv in
    ground (
      arith,
      lookup-insert own key (absorb_vuln rv (get_or (lookup own merged) (new_vuln rv))) merged,
      string_eq.agree_iff own key,
      (λ (q : own ≡ key). ap (λ k. lookup k merged) q),
    )

-- The scanners of a finding, and the rank of its severity; no finding has none, and rank 0.
abbrev pub reports : Option NormalizedFinding → Scanner → Bool
reports none s = false
reports (some nf) s = contains nf.reported_by s

abbrev pub rank_of : Option NormalizedFinding → ℕ
rank_of none = 0
rank_of (some nf) = rank nf.severity

contains-append :
    (ss : List Scanner) (t s : Scanner) → contains (ss ++ t ∷ []) s ≡ (contains ss s || t == s)
contains-append [] t s = ground arith
contains-append (x ∷ ss) t s = ground (arith, contains-append ss t s)

contains-add_scanner :
    (t s : Scanner) (ss : List Scanner) → contains (add_scanner t ss) s ≡ (contains ss s || t == s)
contains-add_scanner Scanner.trivy Scanner.trivy ss =
    ground (arith, contains-append ss Scanner.trivy Scanner.trivy)
contains-add_scanner Scanner.trivy Scanner.grype ss =
    ground (arith, contains-append ss Scanner.trivy Scanner.grype)
contains-add_scanner Scanner.grype Scanner.trivy ss =
    ground (arith, contains-append ss Scanner.grype Scanner.trivy)
contains-add_scanner Scanner.grype Scanner.grype ss =
    ground (arith, contains-append ss Scanner.grype Scanner.grype)

rank-raise_severity :
    (new old : Severity) → rank (raise_severity new old) ≡ max (rank old) (rank new)
rank-raise_severity new old = ground arith

reports-absorb :
    (key : String) (found : Option NormalizedFinding) (rv : RawVuln) (s : Scanner)
    → reports (absorb key found rv) s ≡ (reports found s || has_key key rv && rv.scanner == s)
unfolding absorb_vuln new_vuln
reports-absorb key none rv s = ground arith
reports-absorb key (some nf) rv s = ground (arith, contains-add_scanner rv.scanner s nf.reported_by)

-- The highest rank among the records of a key.
abbrev pub worst : String → List RawVuln → ℕ
worst key [] = 0
worst key (rv ∷ rvs) =
    if has_key key rv then max (rank rv.severity) (worst key rvs) else worst key rvs

rank-absorb :
    (key : String) (found : Option NormalizedFinding) (rv : RawVuln)
    → rank_of (absorb key found rv)
      ≡ (if has_key key rv then max (rank_of found) (rank rv.severity) else rank_of found)
unfolding absorb_vuln new_vuln
rank-absorb key none rv = ground (arith, rank-raise_severity rv.severity Severity.unknown)
rank-absorb key (some nf) rv = ground (arith, rank-raise_severity rv.severity nf.severity)

reports-merge_vulns :
    (key : String) (s : Scanner) (merged : Merged) (rvs : List RawVuln)
    → reports (lookup key (merge_vulns merged rvs)) s
      ≡ (reports (lookup key merged) s || any (λ rv. has_key key rv && rv.scanner == s) rvs)
unfolding merge_vulns
reports-merge_vulns key s merged [] = ground arith
reports-merge_vulns key s merged (rv ∷ rvs) = ground (
  arith,
  reports-merge_vulns key s (merge_vuln merged rv) rvs,
  lookup-merge_vuln key merged rv,
  reports-absorb key (lookup key merged) rv s,
)

rank-merge_vulns :
    (key : String) (merged : Merged) (rvs : List RawVuln)
    → rank_of (lookup key (merge_vulns merged rvs))
      ≡ max (rank_of (lookup key merged)) (worst key rvs)
unfolding merge_vulns
rank-merge_vulns key merged [] = omega arith
rank-merge_vulns key merged (rv ∷ rvs) = ground (
  arith,
  rank-merge_vulns key (merge_vuln merged rv) rvs,
  lookup-merge_vuln key merged rv,
  rank-absorb key (lookup key merged) rv,
)

-- After the merge of the vulnerabilities, the finding of a key is reported by exactly the scanners
-- that have a record with that key; without a finding no scanner has one.
pub merged_scanners :
    (key : String) (s : Scanner) (rvs : List RawVuln)
    → reports (lookup key (merge_vulns [] rvs)) s
      ≡ any (λ rv. has_key key rv && rv.scanner == s) rvs
merged_scanners key s rvs = reports-merge_vulns key s [] rvs

-- After the merge of the vulnerabilities, the severity of the finding of a key is the highest among
-- the records with that key.
pub merged_severity :
    (key : String) (rvs : List RawVuln) → rank_of (lookup key (merge_vulns [] rvs)) ≡ worst key rvs
merged_severity key rvs = omega (arith, rank-merge_vulns key [] rvs)
