-- ===== src/Classify/Rules.antt =====
-- `classify` (hardening_loop/classify/rules.py). What the package `packaging` does with a version
-- and a specifier is an argument. Texts in a trace hold no quote, backslash or control character,
-- so that `repr` puts them in single quotes.
use superset_hardening_loop.Prelude.{
  String, Bool, true, false, ◌&&◌, ◌||◌, not, Option, none, some, List, [], ◌∷◌, ◌++◌, map,
}
use superset_hardening_loop.Prelude.Tests.{get_or, if◌then◌else◌}
use superset_hardening_loop.Prelude.Equality.{string_eq, ◌==◌}
use superset_hardening_loop.Prelude.Lists.{any, all, is_empty}
use superset_hardening_loop.Prelude.Dict.{Dict, values, lookup}
use superset_hardening_loop.Prelude.Strings.{concat, join, repr}
use superset_hardening_loop.Domain.Scanner.{
  Scanner, scanner_value, scanner_eq, Layer, layer_value, Ecosystem, ecosystem_value,
  scanner_ecosystems,
}
use superset_hardening_loop.Domain.Kind.{Kind, Risk}
use superset_hardening_loop.Ingest.Normalized.{NormalizedFinding, all_fix_versions, has_fix}

-- `packaging`: `Version(text)`, or `InvalidVersion`; `spec.contains(version, prereleases=False)`,
-- or `InvalidSpecifier`; `str(spec)`.
pub record Packaging : Type 1 where
  pub Version : Type 0
  pub SpecifierSet : Type 0
  pub version : String → Option Version
  pub admits : SpecifierSet → Version → Option Bool
  pub show : SpecifierSet → String

pub record Classification : Type 0 where
  pub kind : Option Kind
  pub risk : Risk
  pub bound_blocked : Bool
  pub trace : String
  pub unclassified_reason : Option String

abbrev pub in_no_fix_states : String → Bool
in_no_fix_states s =
    s == "affected"
    || s == "will_not_fix"
    || s == "wont-fix"
    || s == "fix_deferred"
    || s == "end_of_life"
    || s == "not-fixed"
    || s == "unknown"

-- `str` of a list and of a dictionary of texts.
abbrev show_list : List String → String
show_list xs = concat ("[" ∷ join ", " (map repr xs) ∷ "]" ∷ [])

abbrev show_dict : Dict String String → String
show_dict d = concat (
    "{"
    ∷ join ", " (map (λ (e : String × String). concat (repr e.0 ∷ ": " ∷ repr e.1 ∷ [])) d)
    ∷ "}"
    ∷ [])

-- `Classification(kind, trace=...)`
abbrev pub of_kind : Kind → List String → Classification
of_kind k trace = record {
  kind = some k;
  risk = Risk.normal;
  bound_blocked = false;
  trace = join ";" trace;
  unclassified_reason = none;
}

abbrev pub is_pypi : Ecosystem → Bool
is_pypi Ecosystem.pypi = true
is_pypi _ = false

abbrev pub in_os_or_binary : Ecosystem → Bool
in_os_or_binary Ecosystem.deb = true
in_os_or_binary Ecosystem.binary = true
in_os_or_binary Ecosystem.npm = true
in_os_or_binary Ecosystem.golang = true
in_os_or_binary _ = false

abbrev pub in_deploy_layers : Layer → Bool
in_deploy_layers Layer.helm = true
in_deploy_layers Layer.compose = true
in_deploy_layers _ = false

abbrev pub is_dockerfile : Layer → Bool
is_dockerfile Layer.dockerfile = true
is_dockerfile _ = false

abbrev is_unknown_ecosystem : Ecosystem → Bool
is_unknown_ecosystem Ecosystem.unknown = true
is_unknown_ecosystem _ = false

unfoldable pub comparable : NormalizedFinding → Bool
comparable f =
    not f.is_config
    && all (λ s. scanner_ecosystems s f.ecosystem) (Scanner.trivy ∷ Scanner.grype ∷ [])

unfoldable pub no_fix_from_every_reporter : NormalizedFinding → Bool
no_fix_from_every_reporter f =
    if has_fix f
    then false
    else not (is_empty (values f.fix_state_by_scanner))
      && all (λ s. in_no_fix_states s || s == "") (values f.fix_state_by_scanner)

unfoldable pub unclassified_reason_of : NormalizedFinding → String
unclassified_reason_of f =
    if is_unknown_ecosystem f.ecosystem
    then "unknown_ecosystem"
    else if f.is_config
    then concat ("config_layer_unsupported:" ∷ layer_value f.layer ∷ [])
    else if is_empty f.reported_by
    then "no_reporter"
    else if has_fix f
    then concat ("fixable_but_unsupported_ecosystem:" ∷ ecosystem_value f.ecosystem ∷ [])
    else concat ("fix_state_inconsistent:" ∷ show_dict f.fix_state_by_scanner ∷ [])

abbrev pub other : Scanner → Scanner
other Scanner.trivy = Scanner.grype
other Scanner.grype = Scanner.trivy

-- `(reporter,) = f.reported_by`, when there is exactly one.
abbrev pub sole_reporter : List Scanner → Option Scanner
sole_reporter (s ∷ []) = some s
sole_reporter _ = none

-- Rule 5 and what is left.
unfoldable pub classify_rest : NormalizedFinding → List String → Classification
classify_rest f trace =
    if f.is_config && is_dockerfile f.layer
    then of_kind Kind.container_hardening (trace ++ "r5:dockerfile config" ∷ [])
    else if not f.is_config && in_os_or_binary f.ecosystem && has_fix f
    then of_kind Kind.container_hardening (
        trace
        ++ concat
            ("r5:" ∷ ecosystem_value f.ecosystem ∷ " fix " ∷ show_list (all_fix_versions f) ∷ [])
          ∷ [])
    else record {
      kind = none;
      risk = Risk.normal;
      bound_blocked = false;
      trace = join ";" (trace ++ "r5:no(not fixable os/binary or dockerfile)" ∷ []);
      unclassified_reason = some (unclassified_reason_of f);
    }

-- Rule 4.
unfoldable pub classify_no_fix : NormalizedFinding → List String → Classification
classify_no_fix f trace =
    if not f.is_config && no_fix_from_every_reporter f
    then of_kind Kind.no_fix_reachability
        (trace ++ concat ("r4:no fix states=" ∷ show_dict f.fix_state_by_scanner ∷ []) ∷ [])
    else classify_rest f (trace ++ "r4:no(some reporter has a fix or unknown state)" ∷ [])

module _ (p : Packaging) where
  pub record ClassificationContext : Type 0 where
    pub scanner_job_success : Dict Scanner Bool
    pub upper_bounds : Dict String p.SpecifierSet

  -- One turn of the loop: does this fix version lie within the bounds?
  abbrev pub is_allowed : p.SpecifierSet → String → Bool
  is_allowed spec fv = elim (p.version fv) [
    | none ↦ false
    | some v ↦ get_or (p.admits spec v) false
  ]

  unfoldable pub fix_allowed_by_bounds : List String → p.SpecifierSet → Bool
  fix_allowed_by_bounds fix_versions spec = any (is_allowed spec) fix_versions

  -- The specifier that blocks every fix version of the finding, if there is one.
  unfoldable pub blocking_spec : NormalizedFinding → ClassificationContext → Option p.SpecifierSet
  blocking_spec f ctx = elim (lookup (get_or f.pkg_name "") ctx.upper_bounds) [
    | none ↦ none
    | some spec ↦ if fix_allowed_by_bounds (all_fix_versions f) spec then none else some spec
  ]

  abbrev blocked : NormalizedFinding → p.SpecifierSet → List String → Classification
  blocked f spec trace = record {
    kind = some Kind.dependency_upgrade;
    risk = Risk.high;
    bound_blocked = true;
    trace = join ";" (
        trace
        ++ concat
            ("r3:pypi fix " ∷ show_list (all_fix_versions f) ∷ " blocked by " ∷ p.show spec ∷ [])
          ∷ []);
    unclassified_reason = none;
  }

  -- Rule 3.
  unfoldable pub classify_python :
      NormalizedFinding → ClassificationContext → List String → Classification
  classify_python f ctx trace =
      if not f.is_config && is_pypi f.ecosystem && has_fix f
      then elim (blocking_spec f ctx) [
        | some spec ↦ blocked f spec trace
        | none ↦
            of_kind Kind.dependency_upgrade
              (trace ++ concat ("r3:pypi fix " ∷ show_list (all_fix_versions f) ∷ []) ∷ [])
      ]
      else classify_no_fix f (trace ++ "r3:no(not fixable pypi)" ∷ [])

  -- `ctx.scanner_job_success.get(scanner, False)`
  abbrev pub job_ok : ClassificationContext → Scanner → Bool
  job_ok ctx s = get_or (lookup s ctx.scanner_job_success) false

  -- Rule 2.
  unfoldable pub classify_compared :
      NormalizedFinding → ClassificationContext → List String → Classification
  classify_compared f ctx trace =
      elim (if comparable f then sole_reporter f.reported_by else none) [
        | none ↦ classify_python f ctx (trace ++ "r2:no(not comparable or reported by both)" ∷ [])
        | some reporter ↦
            if job_ok ctx (other reporter)
            then of_kind Kind.scanner_disagreement (
                trace
                ++ concat (
                    "r2:only "
                    ∷ scanner_value reporter
                    ∷ ", "
                    ∷ scanner_value (other reporter)
                    ∷ " job succeeded"
                    ∷ [])
                  ∷ [])
            else classify_python f ctx (
                trace
                ++ concat (
                    "r2:no("
                    ∷ scanner_value (other reporter)
                    ∷ " job did not succeed; not a disagreement)"
                    ∷ [])
                  ∷ [])
      ]

  unfoldable pub classify : NormalizedFinding → ClassificationContext → Classification
  classify f ctx =
      if f.is_config && in_deploy_layers f.layer
      then of_kind Kind.helm_deploy_config
          (concat ("r1:config layer=" ∷ layer_value f.layer ∷ []) ∷ [])
      else classify_compared f ctx ("r1:no(not helm/compose config)" ∷ [])
