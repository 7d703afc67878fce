-- ===== src/Domain/Scanner.antt =====
-- Scanners, layers, ecosystems and what each scanner can match (hardening_loop/domain/enums.py).
use superset_hardening_loop.Prelude.{ℕ, String, ◌≡◌, ◌↔◌, Bool, true, false, arith}
use superset_hardening_loop.Prelude.Tests.{nat_beq}
use superset_hardening_loop.Prelude.Equality.{HasEq}

pub data Scanner : Type 0 where
  trivy grype : Scanner

pub data ScanMode : Type 0 where
  raw policy : ScanMode

pub data GateMode : Type 0 where
  report enforce : GateMode

pub data ImageTarget : Type 0 where
  lean ci : ImageTarget

pub data Layer : Type 0 where
  python os binary dockerfile helm compose : Layer

pub data Ecosystem : Type 0 where
  pypi deb npm golang binary config unknown : Ecosystem

pub data ScanRunStatus : Type 0 where
  complete incomplete failed : ScanRunStatus

pub data Trigger : Type 0 where
  push pull_request schedule workflow_dispatch replay fixture : Trigger

abbrev pub scanner_value : Scanner → String
scanner_value Scanner.trivy = "trivy"
scanner_value Scanner.grype = "grype"

abbrev pub layer_value : Layer → String
layer_value Layer.python = "python"
layer_value Layer.os = "os"
layer_value Layer.binary = "binary"
layer_value Layer.dockerfile = "dockerfile"
layer_value Layer.helm = "helm"
layer_value Layer.compose = "compose"

abbrev pub ecosystem_value : Ecosystem → String
ecosystem_value Ecosystem.pypi = "pypi"
ecosystem_value Ecosystem.deb = "deb"
ecosystem_value Ecosystem.npm = "npm"
ecosystem_value Ecosystem.golang = "golang"
ecosystem_value Ecosystem.binary = "binary"
ecosystem_value Ecosystem.config = "config"
ecosystem_value Ecosystem.unknown = "unknown"

abbrev pub scan_run_status_value : ScanRunStatus → String
scan_run_status_value ScanRunStatus.complete = "complete"
scan_run_status_value ScanRunStatus.incomplete = "incomplete"
scan_run_status_value ScanRunStatus.failed = "failed"

abbrev pub trigger_value : Trigger → String
trigger_value Trigger.push = "push"
trigger_value Trigger.pull_request = "pull_request"
trigger_value Trigger.schedule = "schedule"
trigger_value Trigger.workflow_dispatch = "workflow_dispatch"
trigger_value Trigger.replay = "replay"
trigger_value Trigger.fixture = "fixture"

abbrev pub image_target_value : ImageTarget → String
image_target_value ImageTarget.lean = "lean"
image_target_value ImageTarget.ci = "ci"

-- `SCANNER_ECOSYSTEMS[scanner]`, as membership.
abbrev pub scanner_ecosystems : Scanner → Ecosystem → Bool
scanner_ecosystems s Ecosystem.pypi = true
scanner_ecosystems s Ecosystem.deb = true
scanner_ecosystems s Ecosystem.npm = true
scanner_ecosystems s Ecosystem.golang = true
scanner_ecosystems Scanner.grype Ecosystem.binary = true
scanner_ecosystems _ _ = false

-- `CLOSING_TRIGGERS`, as membership.
abbrev pub in_closing_triggers : Trigger → Bool
in_closing_triggers Trigger.pull_request = false
in_closing_triggers _ = true

-- `CONFIG_LAYERS`, as membership.
abbrev pub in_config_layers : Layer → Bool
in_config_layers Layer.dockerfile = true
in_config_layers Layer.helm = true
in_config_layers Layer.compose = true
in_config_layers _ = false

abbrev pub scanner_beq : Scanner → Scanner → Bool
scanner_beq Scanner.trivy Scanner.trivy = true
scanner_beq Scanner.grype Scanner.grype = true
scanner_beq _ _ = false

pub scanner_beq_iff : (a b : Scanner) → (scanner_beq a b ≡ true) ↔ (a ≡ b)
scanner_beq_iff Scanner.trivy b = ground arith
scanner_beq_iff Scanner.grype b = ground arith

instance abbrev pub scanner_eq : HasEq Scanner
scanner_eq = record { agree = scanner_beq; agree_iff = scanner_beq_iff }

abbrev pub image_target_beq : ImageTarget → ImageTarget → Bool
image_target_beq ImageTarget.lean ImageTarget.lean = true
image_target_beq ImageTarget.ci ImageTarget.ci = true
image_target_beq _ _ = false

pub image_target_beq_iff : (a b : ImageTarget) → (image_target_beq a b ≡ true) ↔ (a ≡ b)
image_target_beq_iff ImageTarget.lean b = ground arith
image_target_beq_iff ImageTarget.ci b = ground arith

instance abbrev pub image_target_eq : HasEq ImageTarget
image_target_eq = record { agree = image_target_beq; agree_iff = image_target_beq_iff }

-- Layers and ecosystems are compared by their place in the enum.
abbrev pub layer_tag : Layer → ℕ
layer_tag Layer.python = 0
layer_tag Layer.os = 1
layer_tag Layer.binary = 2
layer_tag Layer.dockerfile = 3
layer_tag Layer.helm = 4
layer_tag Layer.compose = 5

pub layer_tag_iff : (a b : Layer) → (nat_beq (layer_tag a) (layer_tag b) ≡ true) ↔ (a ≡ b)
layer_tag_iff Layer.python b = ground arith
layer_tag_iff Layer.os b = ground arith
layer_tag_iff Layer.binary b = ground arith
layer_tag_iff Layer.dockerfile b = ground arith
layer_tag_iff Layer.helm b = ground arith
layer_tag_iff Layer.compose b = ground arith

instance abbrev pub layer_eq : HasEq Layer
layer_eq = record { agree = λ a b. nat_beq (layer_tag a) (layer_tag b); agree_iff = layer_tag_iff }

abbrev pub ecosystem_tag : Ecosystem → ℕ
ecosystem_tag Ecosystem.pypi = 0
ecosystem_tag Ecosystem.deb = 1
ecosystem_tag Ecosystem.npm = 2
ecosystem_tag Ecosystem.golang = 3
ecosystem_tag Ecosystem.binary = 4
ecosystem_tag Ecosystem.config = 5
ecosystem_tag Ecosystem.unknown = 6

pub ecosystem_tag_iff :
    (a b : Ecosystem) → (nat_beq (ecosystem_tag a) (ecosystem_tag b) ≡ true) ↔ (a ≡ b)
ecosystem_tag_iff Ecosystem.pypi b = ground arith
ecosystem_tag_iff Ecosystem.deb b = ground arith
ecosystem_tag_iff Ecosystem.npm b = ground arith
ecosystem_tag_iff Ecosystem.golang b = ground arith
ecosystem_tag_iff Ecosystem.binary b = ground arith
ecosystem_tag_iff Ecosystem.config b = ground arith
ecosystem_tag_iff Ecosystem.unknown b = ground arith

instance abbrev pub ecosystem_eq : HasEq Ecosystem
ecosystem_eq = record {
  agree = λ a b. nat_beq (ecosystem_tag a) (ecosystem_tag b);
  agree_iff = ecosystem_tag_iff;
}
