-- ===== src/Engine/Levels.antt =====
-- `_raise_level`, `_reset_level` and `_reverify_new_head` (hardening_loop/orchestrator/engine.py).
use superset_hardening_loop.Prelude.{ℕ, String, Bool, true, false, none, [], ◌∷◌}
use superset_hardening_loop.Prelude.Tests.{ltb, if◌then◌else◌}
use superset_hardening_loop.Prelude.Strings.{concat, take_chars}
use superset_hardening_loop.Domain.WorkItemState.{WorkItemState}
use superset_hardening_loop.Domain.LifecycleLevel.{LifecycleLevel, level_number, level_name}
use superset_hardening_loop.Lifecycle.WorkItem.{WorkItemEvent}
use superset_hardening_loop.Engine.World.{entry, Call, World, write}
use superset_hardening_loop.Engine.Apply.{apply_event}

-- The entry of a change of level.
abbrev pub log_level : ℕ → LifecycleLevel → String → World → World
log_level now level why w =
    write
      (entry now "controller" "work_item" w.item.id "lifecycle_level"
        (level_name w.item.lifecycle_level) (level_name level) why [])
      w

abbrev pub set_level : LifecycleLevel → World → World
set_level level w = record w { item = record w.item { lifecycle_level = level } }

abbrev pub set_row_level : LifecycleLevel → World → World
set_row_level level w = record w { row = record w.row { lifecycle_level = level } }

unfoldable pub raise_level : ℕ → LifecycleLevel → String → World → World
raise_level now level why w =
    let raised =
      if ltb (level_number w.item.lifecycle_level) (level_number level)
      then set_level level (log_level now level why w)
      else w in
    if ltb (level_number w.row.lifecycle_level) (level_number level)
    then set_row_level level raised
    else raised

unfoldable pub reset_level : ℕ → LifecycleLevel → String → World → World
reset_level now level why w =
    let reset =
      if ltb (level_number level) (level_number w.item.lifecycle_level)
      then set_level level (log_level now level why w)
      else w in
    if ltb (level_number level) (level_number w.row.lifecycle_level)
    then set_row_level level reset
    else reset

-- The states in which a push takes the evidence of an item away.
abbrev pub is_reviewed : WorkItemState → Bool
is_reviewed WorkItemState.review_pending = true
is_reviewed WorkItemState.ready_for_human = true
is_reviewed _ = false

abbrev pub without_depth : World → World
without_depth w = record w {
  row = record w.row { verification_depth = none; depth_rungs = [] };
  item = record w.item { verification_depth = none };
}

unfoldable pub reverify_new_head : (Call → Bool) → ℕ → String → World → World
reverify_new_head succeeds now head_sha w =
    let why = concat ("new head " ∷ take_chars 12 head_sha ∷ []) in
    without_depth (
      reset_level now LifecycleLevel.pr_opened why (
        if is_reviewed w.item.state
        then apply_event succeeds now WorkItemEvent.new_head_pushed why "controller" w
        else w))
