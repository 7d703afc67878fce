-- ===== src/Models/Config.antt =====
-- The constants of hardening_loop/config.py that the rules name.
use superset_hardening_loop.Prelude.{String, Bool, ◌||◌}
use superset_hardening_loop.Prelude.Equality.{string_eq, ◌==◌}

abbrev pub fork_repo : String
fork_repo = "Hunter-1298/superset"

abbrev pub controller_repo : String
controller_repo = "Hunter-1298/superset-hardening-loop"

abbrev pub remediation_branch : String
remediation_branch = "main"

abbrev pub trivy_version : String
trivy_version = "0.71.2"

abbrev pub grype_version : String
grype_version = "0.114.0"

-- `repo in REPO_ALLOWLIST`
abbrev pub in_repo_allowlist : String → Bool
in_repo_allowlist repo = repo == fork_repo || repo == controller_repo
