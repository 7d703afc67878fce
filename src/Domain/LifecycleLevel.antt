-- ===== src/Domain/LifecycleLevel.antt =====
-- `LifecycleLevel` (hardening_loop/domain/enums.py).
use superset_hardening_loop.Prelude.{ℕ, String}

pub data LifecycleLevel : Type 0 where
  none pr_opened ci_green review_completed human_approved merged rescan_verified : LifecycleLevel

abbrev pub level_number : LifecycleLevel → ℕ
level_number LifecycleLevel.none = 0
level_number LifecycleLevel.pr_opened = 1
level_number LifecycleLevel.ci_green = 2
level_number LifecycleLevel.review_completed = 3
level_number LifecycleLevel.human_approved = 4
level_number LifecycleLevel.merged = 5
level_number LifecycleLevel.rescan_verified = 6

abbrev pub level_name : LifecycleLevel → String
level_name LifecycleLevel.none = "none"
level_name LifecycleLevel.pr_opened = "pr_opened"
level_name LifecycleLevel.ci_green = "ci_green"
level_name LifecycleLevel.review_completed = "review_completed"
level_name LifecycleLevel.human_approved = "human_approved"
level_name LifecycleLevel.merged = "merged"
level_name LifecycleLevel.rescan_verified = "rescan_verified"
