-- ===== src/Gate.antt =====
-- The policy gate (hardening_loop/gate.py). Counts are not negative.
use superset_hardening_loop.Prelude.{ℕ, ◌+◌, String, ◌≡◌, ◌↔◌, refl, Bool, true, [], ◌∷◌, arith}
use superset_hardening_loop.Prelude.Tests.{nat_beq, get_or, if◌then◌else◌}
use superset_hardening_loop.Prelude.Equality.{string_eq}
use superset_hardening_loop.Prelude.Dict.{Dict, lookup}
use superset_hardening_loop.Prelude.Strings.{concat, show_nat}
use superset_hardening_loop.Domain.Severity
use superset_hardening_loop.Domain.Severity.{Severity}
use superset_hardening_loop.Domain.Scanner.{GateMode}

pub record GateVerdict : Type 0 where
  pub mode : GateMode
  pub policy_high : ℕ
  pub policy_critical : ℕ
  pub passed : Bool
  pub reason : String

abbrev pub gated_count : GateVerdict → ℕ
gated_count v = v.policy_high + v.policy_critical

unfoldable pub ready_for_enforce : GateVerdict → Bool
ready_for_enforce v = nat_beq (gated_count v) 0

-- `policy_counts_by_severity.get(severity.value, 0)`
abbrev pub count_of : Severity → Dict String ℕ → ℕ
count_of s counts = get_or (lookup (Severity.value s) counts) 0

unfoldable pub gate_verdict : GateMode → Dict String ℕ → GateVerdict
gate_verdict mode counts =
    let high : ℕ = count_of Severity.high counts in
    let critical : ℕ = count_of Severity.critical counts in
    let gated : ℕ = high + critical in
    elim mode [
      | GateMode.enforce ↦ record {
        mode = GateMode.enforce;
        policy_high = high;
        policy_critical = critical;
        passed = nat_beq gated 0;
        reason =
            if nat_beq gated 0
            then "no policy HIGH/CRITICAL findings"
            else concat (
                show_nat critical
                ∷ " CRITICAL + "
                ∷ show_nat high
                ∷ " HIGH policy findings (fix availability ignored)"
                ∷ []);
      }
      | GateMode.report ↦ record {
        mode = GateMode.report;
        policy_high = high;
        policy_critical = critical;
        passed = true;
        reason = concat (
            "report mode: "
            ∷ show_nat critical
            ∷ " CRITICAL + "
            ∷ show_nat high
            ∷ " HIGH policy findings recorded, not gated"
            ∷ []);
      }
    ]

-- Enforcing, the gate passes exactly when there is no policy finding that is HIGH and none that is
-- CRITICAL.
pub gate_enforces :
    (counts : Dict String ℕ)
    → ((gate_verdict GateMode.enforce counts).passed ≡ true)
      ↔ ((count_of Severity.high counts ≡ 0) × (count_of Severity.critical counts ≡ 0))
unfolding gate_verdict
gate_enforces counts = ground arith

-- A reporting gate always passes, and in either mode the verdict is ready for enforcement
-- exactly when the enforcing gate would pass on the same counts.
gate_ready :
    (mode : GateMode) (counts : Dict String ℕ)
    → ((gate_verdict GateMode.report counts).passed ≡ true)
      × (ready_for_enforce (gate_verdict mode counts)
          ≡ (gate_verdict GateMode.enforce counts).passed)
unfolding gate_verdict ready_for_enforce
gate_ready GateMode.report counts = (refl, refl)
gate_ready GateMode.enforce counts = (refl, refl)
