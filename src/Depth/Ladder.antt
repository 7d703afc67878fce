-- ===== src/Depth/Ladder.antt =====
-- `VerificationDepth`, `CheckStatus`, `CheckSource` (hardening_loop/domain/enums.py) and
-- `DEFAULT_LADDER` (hardening_loop/verification.py).
use superset_hardening_loop.Prelude.{
  ℕ, String, Bool, true, false, Option, none, some, List, [], ◌∷◌,
}

pub data VerificationDepth : Type 0 where
  requirements_pip import_migrations targeted_unit immutable_image_runtime : VerificationDepth
  db_subset playwright canary : VerificationDepth

abbrev pub depth_number : VerificationDepth → ℕ
depth_number VerificationDepth.requirements_pip = 0
depth_number VerificationDepth.import_migrations = 1
depth_number VerificationDepth.targeted_unit = 2
depth_number VerificationDepth.immutable_image_runtime = 3
depth_number VerificationDepth.db_subset = 4
depth_number VerificationDepth.playwright = 5
depth_number VerificationDepth.canary = 6

-- The members in the order in which the enum is iterated.
abbrev pub all_depths : List VerificationDepth
all_depths =
    VerificationDepth.requirements_pip ∷ VerificationDepth.import_migrations
    ∷ VerificationDepth.targeted_unit ∷ VerificationDepth.immutable_image_runtime
    ∷ VerificationDepth.db_subset ∷ VerificationDepth.playwright ∷ VerificationDepth.canary ∷ []

-- `d.name`
abbrev pub depth_name : VerificationDepth → String
depth_name VerificationDepth.requirements_pip = "requirements_pip"
depth_name VerificationDepth.import_migrations = "import_migrations"
depth_name VerificationDepth.targeted_unit = "targeted_unit"
depth_name VerificationDepth.immutable_image_runtime = "immutable_image_runtime"
depth_name VerificationDepth.db_subset = "db_subset"
depth_name VerificationDepth.playwright = "playwright"
depth_name VerificationDepth.canary = "canary"

pub data CheckStatus : Type 0 where
  pending passed failed partial unavailable : CheckStatus

abbrev pub check_status_value : CheckStatus → String
check_status_value CheckStatus.pending = "pending"
check_status_value CheckStatus.passed = "passed"
check_status_value CheckStatus.failed = "failed"
check_status_value CheckStatus.partial = "partial"
check_status_value CheckStatus.unavailable = "unavailable"

pub data CheckSource : Type 0 where
  github_check ladder devin_claim : CheckSource

abbrev pub source_eq : CheckSource → CheckSource → Bool
source_eq CheckSource.github_check CheckSource.github_check = true
source_eq CheckSource.ladder CheckSource.ladder = true
source_eq CheckSource.devin_claim CheckSource.devin_claim = true
source_eq _ _ = false

pub record Component : Type 0 where
  pub name : String
  pub description : String
  pub check : Option String

-- `CheckRun` (hardening_loop/github/protocol.py)
pub record CheckRun : Type 0 where
  pub name : String
  pub status : String
  pub conclusion : Option String
  pub url : Option String

-- `Component(name, description, check)`
abbrev component : String → String → Option String → Component
component name description check = record { name = name; description = description; check = check }

unfoldable pub default_ladder : VerificationDepth → List Component
default_ladder VerificationDepth.requirements_pip =
    component "requirements-regenerated"
      "pins regenerate cleanly from source inputs (scripts/uv-pip-compile.sh)"
      (some "check-python-deps")
    ∷ component "pip-install" "pip installs the pinned set while building the immutable image"
        (some "build-image")
    ∷ []
default_ladder VerificationDepth.import_migrations =
    component "import-and-migrations"
      "superset imports, `superset db upgrade` reaches head, gunicorn serves /health, login works, all inside the exact lean image"
      (some "lean-smoke")
    ∷ []
default_ladder VerificationDepth.targeted_unit =
    component "python-unit-tests" "pytest unit suite" (some "unit-tests") ∷ []
default_ladder VerificationDepth.immutable_image_runtime =
    component "postgres-redis-app-runs"
      "exact ci image with Postgres, Redis and Celery: migrations, login, dashboards, chart data, SQL Lab sync + async, CSV export"
      (some "app-runs")
    ∷ component "screenshot" "rendered dashboard screenshot from the running image" none
    ∷ []
default_ladder VerificationDepth.db_subset =
    component "integration-postgres" "integration tests on PostgreSQL" (some "test-postgres")
    ∷ component "integration-mysql" "integration tests on MySQL" (some "test-mysql")
    ∷ component "integration-sqlite" "integration tests on SQLite" (some "test-sqlite")
    ∷ []
default_ladder VerificationDepth.playwright =
    component "playwright" "Playwright end-to-end suite" (some "playwright-tests") ∷ []
default_ladder VerificationDepth.canary =
    component "canary" "canary deployment with traffic; no environment exists" none ∷ []
