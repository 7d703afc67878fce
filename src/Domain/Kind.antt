-- ===== src/Domain/Kind.antt =====
-- `Kind` with its caps and playbooks, and `Risk` (hardening_loop/domain/enums.py).
use superset_hardening_loop.Prelude.{ℕ, String}

pub data Kind : Type 0 where
  dependency_upgrade no_fix_reachability container_hardening scanner_disagreement : Kind
  helm_deploy_config : Kind

pub data Risk : Type 0 where
  normal high : Risk

-- The value of the `IntEnum`, by which kinds are ordered.
abbrev pub number : Kind → ℕ
number Kind.dependency_upgrade = 1
number Kind.no_fix_reachability = 2
number Kind.container_hardening = 3
number Kind.scanner_disagreement = 4
number Kind.helm_deploy_config = 5

abbrev pub slug : Kind → String
slug Kind.dependency_upgrade = "dependency_upgrade"
slug Kind.no_fix_reachability = "no_fix_reachability"
slug Kind.container_hardening = "container_hardening"
slug Kind.scanner_disagreement = "scanner_disagreement"
slug Kind.helm_deploy_config = "helm_deploy_config"

-- `ACU_CAPS`
abbrev pub acu_cap : Kind → ℕ
acu_cap Kind.dependency_upgrade = 5
acu_cap Kind.no_fix_reachability = 8
acu_cap Kind.container_hardening = 20
acu_cap Kind.scanner_disagreement = 3
acu_cap Kind.helm_deploy_config = 6

-- `PLAYBOOK_SLUGS`
abbrev pub playbook_slug : Kind → String
playbook_slug Kind.dependency_upgrade = "pb-dependency-upgrade"
playbook_slug Kind.no_fix_reachability = "pb-no-fix-openvex"
playbook_slug Kind.container_hardening = "pb-container-hardening"
playbook_slug Kind.scanner_disagreement = "pb-scanner-disagreement"
playbook_slug Kind.helm_deploy_config = "pb-helm-security"
