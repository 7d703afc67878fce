-- ===== src/Classify/Kinds.antt =====
-- When a finding gets which kind (hardening_loop/classify/rules.py).
use superset_hardening_loop.Prelude.{
  ◌≡◌, refl, ◌↔◌, inl, inr, ◌⊎◌, subst, ap, ◌∙◌, Bool, true, false, ◌&&◌, ◌||◌, not, Option, none,
  some, List, [], ◌∷◌, ◌++◌, String, arith,
}
use superset_hardening_loop.Prelude.Tests.{if◌then◌else◌, Option-cases, is_some, get_or}
use superset_hardening_loop.Prelude.Equality.{string_eq, ◌==◌}
use superset_hardening_loop.Prelude.Lists.{all, is_empty}
use superset_hardening_loop.Prelude.Dict.{values, lookup}
use superset_hardening_loop.Prelude.Strings.{concat}
use superset_hardening_loop.Domain.Scanner.{scanner_value}
use superset_hardening_loop.Domain.Kind.{Kind, Risk}
use superset_hardening_loop.Ingest.Normalized.{NormalizedFinding, has_fix, all_fix_versions}
use superset_hardening_loop.Classify.Rules.{
  Packaging, ClassificationContext, in_no_fix_states, is_pypi, in_os_or_binary, in_deploy_layers,
  is_dockerfile, comparable, no_fix_from_every_reporter, other, sole_reporter, classify_rest,
  classify_no_fix, classify_python, classify_compared, classify, job_ok, blocking_spec, is_allowed,
  fix_allowed_by_bounds,
}

abbrev pub is_no_fix : NormalizedFinding → Bool
is_no_fix f = not f.is_config && no_fix_from_every_reporter f

abbrev pub is_hardening : NormalizedFinding → Bool
is_hardening f =
    f.is_config && is_dockerfile f.layer
    || not f.is_config && in_os_or_binary f.ecosystem && has_fix f

abbrev pub is_upgrade : NormalizedFinding → Bool
is_upgrade f = not f.is_config && is_pypi f.ecosystem && has_fix f

-- The kinds by the rules alone, in their order and without traces.
abbrev pub first_match : Bool → Bool → Bool → Bool → Bool → Option Kind
first_match deploy lone upgrade no_fix hardening =
    if deploy
    then some Kind.helm_deploy_config
    else if lone
    then some Kind.scanner_disagreement
    else if upgrade
    then some Kind.dependency_upgrade
    else if no_fix
    then some Kind.no_fix_reachability
    else if hardening
    then some Kind.container_hardening
    else none

classify_rest_lem :
    (f : NormalizedFinding) (trace : List String)
    → (classify_rest f trace).kind ≡ first_match false false false false (is_hardening f)
unfolding classify_rest
classify_rest_lem f trace = ground arith

classify_no_fix_lem :
    (f : NormalizedFinding) (trace : List String)
    → (classify_no_fix f trace).kind ≡ first_match false false false (is_no_fix f) (is_hardening f)
unfolding classify_no_fix
classify_no_fix_lem f trace =
    ground
      (arith, classify_rest_lem f (trace ++ "r4:no(some reporter has a fix or unknown state)" ∷ []))

module _ (p : Packaging) (f : NormalizedFinding) (ctx : ClassificationContext p) where
  classify_python_lem :
      (trace : List String)
      → (classify_python p f ctx trace).kind
        ≡ first_match false false (is_upgrade f) (is_no_fix f) (is_hardening f)
  unfolding classify_python
  classify_python_lem trace =
      ground (arith, classify_no_fix_lem f (trace ++ "r3:no(not fixable pypi)" ∷ []))

  -- Exactly one scanner reports a finding that both could, and the job of the other succeeded.
  abbrev pub is_disagreement : Bool
  is_disagreement = elim (if comparable f then sole_reporter f.reported_by else none) [
    | none ↦ false
    | some s ↦ job_ok p ctx (other s)
  ]

  classify_compared_lem :
      (trace : List String)
      → (classify_compared p f ctx trace).kind
        ≡ first_match false is_disagreement (is_upgrade f) (is_no_fix f) (is_hardening f)
  unfolding classify_compared
  classify_compared_lem trace =
      elim (Option-cases (if comparable f then sole_reporter f.reported_by else none)) [
        | inl e ↦
            ground (
              arith,
              classify_python_lem (trace ++ "r2:no(not comparable or reported by both)" ∷ []),
            )
        | inr (reporter, e) ↦ ground (
          arith,
          classify_python_lem (
              trace
              ++ concat (
                  "r2:no("
                  ∷ scanner_value (other reporter)
                  ∷ " job did not succeed; not a disagreement)"
                  ∷ [])
                ∷ []),
        )
      ]

  -- A finding gets the kind of the first of five tests that it meets: a deployment configuration;
  -- a report that the other scanner's successful job lacks; a Python package with a fixed version;
  -- no fixed version at any reporter; a fixable system package or a Dockerfile rule. It gets none
  -- when it meets no test.
  pub classify-kind :
      (classify p f ctx).kind
      ≡ first_match
          (f.is_config && in_deploy_layers f.layer)
          is_disagreement
          (is_upgrade f)
          (is_no_fix f)
          (is_hardening f)
  unfolding classify
  classify-kind = ground (arith, classify_compared_lem ("r1:no(not helm/compose config)" ∷ []))

  -- A version that a specifier does not admit, or that `packaging` cannot read or compare.
  abbrev pub IsRuledOut : p.SpecifierSet → String → Type 0
  IsRuledOut spec fv =
      (p.version fv ≡ none)
      ⊎ ((v : p.Version) × (p.version fv ≡ some v)
          × ((p.admits spec v ≡ none) ⊎ (p.admits spec v ≡ some false)))

  abbrev pub AllRuledOut : p.SpecifierSet → List String → Type 0
  AllRuledOut spec [] = Unit
  AllRuledOut spec (fv ∷ fvs) = IsRuledOut spec fv × AllRuledOut spec fvs

  -- The project bounds the package, and none of the fixed versions lies within the bound.
  abbrev pub IsBlocked : Type 0
  IsBlocked =
      (spec : p.SpecifierSet) × (lookup (get_or f.pkg_name "") ctx.upper_bounds ≡ some spec)
      × AllRuledOut spec (all_fix_versions f)

  is_allowed-IsRuledOut :
      (spec : p.SpecifierSet) (fv : String) → (is_allowed p spec fv ≡ false) ↔ IsRuledOut spec fv
  is_allowed-IsRuledOut spec fv = elim (Option-cases (p.version fv)) [
    | inl e ↦ ((λ h. inl e), (λ r. ground arith))
    | inr (v, e) ↦ (
      (λ h. inr (
          (
            v,
            e,
            elim (Option-cases (p.admits spec v)) [
              | inl q ↦ inl q
              | inr (b, q) ↦ let no : b ≡ false = ground arith in inr (q ∙ ap some no)
            ],
          ))),
      (λ r. elim r [
        | inl none_read ↦ absurd (ground arith)
        | inr (u, q, out) ↦
            let same : u ≡ v = ground arith in
            let out_v =
              subst (λ x. (p.admits spec x ≡ none) ⊎ (p.admits spec x ≡ some false)) same out in
            ground arith
      ]),
    )
  ]

  fix_allowed_by_bounds-AllRuledOut :
      (spec : p.SpecifierSet) (fvs : List String)
      → (fix_allowed_by_bounds p fvs spec ≡ false) ↔ AllRuledOut spec fvs
  unfolding fix_allowed_by_bounds
  fix_allowed_by_bounds-AllRuledOut spec [] = ((λ h. tt), (λ h. refl))
  fix_allowed_by_bounds-AllRuledOut spec (fv ∷ fvs) =
      let here = is_allowed-IsRuledOut spec fv in
      let later = fix_allowed_by_bounds-AllRuledOut spec fvs in
      (
        (λ h. (here.0 (ground arith), later.0 (ground arith))),
        (λ h. let first = here.1 h.0 in let rest = later.1 h.1 in ground arith),
      )

  blocking_spec-IsBlocked : (is_some (blocking_spec p f ctx) ≡ true) ↔ IsBlocked
  unfolding blocking_spec
  blocking_spec-IsBlocked = elim (Option-cases (lookup (get_or f.pkg_name "") ctx.upper_bounds)) [
    | inl e ↦ ((λ h. absurd (ground arith)), (λ b. absurd (ground (arith, b.1))))
    | inr (spec, e) ↦
        let out = fix_allowed_by_bounds-AllRuledOut spec (all_fix_versions f) in
        (
          (λ h. (spec, e, out.0 (ground arith))),
          (λ b.
              let same : b.0 ≡ spec = ground (arith, b.1) in
              let no = out.1 (subst (λ x. AllRuledOut x (all_fix_versions f)) same b.2) in
              ground arith),
        )
  ]

  risk_high-blocking_spec :
      (((classify p f ctx).risk ≡ Risk.high) ↔ (
        ((classify p f ctx).kind ≡ some Kind.dependency_upgrade)
        × (is_some (blocking_spec p f ctx) ≡ true)))
      × (((classify p f ctx).risk ≡ Risk.high) ↔ ((classify p f ctx).bound_blocked ≡ true))
  unfolding classify classify_compared classify_python classify_no_fix classify_rest
  risk_high-blocking_spec = ground arith

  -- A classification is high risk exactly when the finding is a dependency upgrade, the project bounds
  -- its package, and each fixed version lies outside the bound or cannot be read or compared with it;
  -- exactly then it is marked as blocked.
  pub risk_high_iff :
      (((classify p f ctx).risk ≡ Risk.high)
        ↔ (((classify p f ctx).kind ≡ some Kind.dependency_upgrade) × IsBlocked))
      × (((classify p f ctx).risk ≡ Risk.high) ↔ ((classify p f ctx).bound_blocked ≡ true))
  risk_high_iff =
      let (high, marked) = risk_high-blocking_spec in
      let spec = blocking_spec-IsBlocked in
      (
        (
          (λ h. let found = high.0 h in (found.0, spec.0 found.1)),
          (λ b. high.1 ((b.0, spec.1 b.1))),
        ),
        marked,
      )

  -- A finding has a reason for being unclassified exactly when it has no kind.
  pub unclassified_iff :
      (is_some (classify p f ctx).unclassified_reason ≡ true) ↔ ((classify p f ctx).kind ≡ none)
  unfolding classify classify_compared classify_python classify_no_fix classify_rest
  unclassified_iff = ground arith

  -- A finding is sent to reachability analysis only if no scanner knows a fixed version and each
  -- reported a state that says so.
  pub no_fix_sound :
      (classify p f ctx).kind ≡ some Kind.no_fix_reachability
      → (has_fix f ≡ false)
        × (is_empty (values f.fix_state_by_scanner) ≡ false)
        × (all (λ s. in_no_fix_states s || s == "") (values f.fix_state_by_scanner) ≡ true)
  unfolding no_fix_from_every_reporter
  no_fix_sound h = ground (arith, classify-kind)
