-- ===== src/Engine/Laws.antt =====
-- Where an event leaves a work item, and what a push takes from it
-- (hardening_loop/orchestrator/engine.py).
use superset_hardening_loop.Prelude.{
  ℕ, suc, ◌≤◌, String, ◌≡◌, sym, ap, ◌∙◌, inl, inr, Bool, true, false, none, some, [], ◌∷◌, arith,
}
use superset_hardening_loop.Prelude.Tests.{get_or, if◌then◌else◌, Bool-cases, Option-cases}
use superset_hardening_loop.Prelude.Strings.{concat, take_chars}
use superset_hardening_loop.Domain.WorkItemState.{WorkItemState}
use superset_hardening_loop.Domain.LifecycleLevel.{LifecycleLevel, level_number}
use superset_hardening_loop.Lifecycle.WorkItem.{
  WorkItemEvent, work_item_transitions, next_work_item_state,
}
use superset_hardening_loop.Engine.World.{WorkItem, Call, World}
use superset_hardening_loop.Engine.Apply.{
  blockable, is_needs_human, sync_human_label, move, refused, with_reason, block_reason, apply_from,
  apply_event,
}
use superset_hardening_loop.Engine.Levels.{reset_level, is_reviewed, reverify_new_head}

blocked_needs_human :
    (state : WorkItemState)
    → work_item_transitions state WorkItemEvent.blocked
      ≡ (if blockable state then some WorkItemState.needs_human else none)
unfolding work_item_transitions blockable
blocked_needs_human state = ground arith

needs_human_unblockable :
    (state : WorkItemState) → is_needs_human state ≡ true → blockable state ≡ false
unfolding work_item_transitions blockable
needs_human_unblockable state h = ground arith

module _ (succeeds : Call → Bool) (now : ℕ) where
  pub item-sync_human_label :
      (before after : WorkItemState) (w : World)
      → (sync_human_label succeeds before after w).item ≡ w.item
  unfolding sync_human_label
  item-sync_human_label before after w = ground arith

  pub row-sync_human_label :
      (before after : WorkItemState) (w : World)
      → (sync_human_label succeeds before after w).row ≡ w.row
  unfolding sync_human_label
  row-sync_human_label before after w = ground arith

  state-move :
      (event : WorkItemEvent) (reason actor : String) (after : WorkItemState) (w : World)
      → (move succeeds now event reason actor after w).item.state ≡ after
  unfolding move
  state-move event reason actor after w =
      ap (λ (i : WorkItem). i.state) (item-sync_human_label _ _ _)

  -- The world after an invalid transition of an item that can be blocked.
  abbrev pub escalate : WorkItemEvent → String → World → World
  escalate event reason w =
      let why = block_reason w.item.state event in
      move succeeds now WorkItemEvent.blocked why "controller" WorkItemState.needs_human
        (with_reason why (refused now event reason w))

  pub apply_from-moved :
      (fuel : ℕ) (event : WorkItemEvent) (reason actor : String) (w : World) {after : WorkItemState}
      → work_item_transitions w.item.state event ≡ some after
      → apply_from succeeds (suc fuel) now event reason actor w
        ≡ move succeeds now event reason actor after w
  unfolding apply_from next_work_item_state
  apply_from-moved fuel event reason actor w h = ground arith

  pub apply_from-refused :
      (fuel : ℕ) (event : WorkItemEvent) (reason actor : String) (w : World)
      → work_item_transitions w.item.state event ≡ none
      → blockable w.item.state ≡ false
      → apply_from succeeds (suc fuel) now event reason actor w ≡ refused now event reason w
  unfolding apply_from next_work_item_state
  apply_from-refused fuel event reason actor w h b =
      ground (arith, needs_human_unblockable w.item.state)

  pub apply_from-escalated :
      (fuel : ℕ) (event : WorkItemEvent) (reason actor : String) (w : World)
      → work_item_transitions w.item.state event ≡ none
      → blockable w.item.state ≡ true
      → apply_from succeeds (suc (suc fuel)) now event reason actor w ≡ escalate event reason w
  unfolding apply_from next_work_item_state
  apply_from-escalated fuel event reason actor w h b = ground (
    arith,
    needs_human_unblockable w.item.state,
    blocked_needs_human w.item.state,
    apply_from-moved fuel WorkItemEvent.blocked (block_reason w.item.state event) "controller"
        (with_reason (block_reason w.item.state event) (refused now event reason w))
        (blocked_needs_human w.item.state
          ∙ ap (λ c. if c then some WorkItemState.needs_human else none) b),
  )

  -- An event takes an item along its transition. Without one the item goes to `needs_human` if its
  -- state can be blocked, and stays where it is otherwise.
  pub apply_event-state :
      (event : WorkItemEvent) (reason actor : String) (w : World)
      → (apply_event succeeds now event reason actor w).item.state
        ≡ get_or
            (work_item_transitions w.item.state event)
            (if blockable w.item.state then WorkItemState.needs_human else w.item.state)
  unfolding apply_event
  apply_event-state event reason actor w =
      elim (Option-cases (work_item_transitions w.item.state event)) [
        | inr (after, e) ↦ ground (
          arith,
          apply_from-moved 1 event reason actor w e,
          state-move event reason actor after w,
        )
        | inl e ↦ elim (Bool-cases (blockable w.item.state)) [
          | inl b ↦ ground (
            arith,
            apply_from-escalated 0 event reason actor w e b,
            state-move WorkItemEvent.blocked (block_reason w.item.state event) "controller"
                WorkItemState.needs_human
                (with_reason (block_reason w.item.state event) (refused now event reason w)),
          )
          | inr b ↦ ground (arith, apply_from-refused 1 event reason actor w e b)
        ]
      ]

  -- Two calls are enough: with more fuel `_wi` comes to the same world.
  pub apply_from-fuel :
      (fuel : ℕ) (event : WorkItemEvent) (reason actor : String) (w : World)
      → apply_from succeeds (suc (suc fuel)) now event reason actor w
        ≡ apply_event succeeds now event reason actor w
  unfolding apply_event
  apply_from-fuel fuel event reason actor w =
      elim (Option-cases (work_item_transitions w.item.state event)) [
        | inr (after, e) ↦
            apply_from-moved (suc fuel) event reason actor w e
            ∙ sym (apply_from-moved 1 event reason actor w e)
        | inl e ↦ elim (Bool-cases (blockable w.item.state)) [
          | inl b ↦
              apply_from-escalated fuel event reason actor w e b
              ∙ sym (apply_from-escalated 0 event reason actor w e b)
          | inr b ↦
              apply_from-refused (suc fuel) event reason actor w e b
              ∙ sym (apply_from-refused 1 event reason actor w e b)
        ]
      ]

  reset_level-state :
      (level : LifecycleLevel) (why : String) (w : World)
      → (reset_level now level why w).item.state ≡ w.item.state
  unfolding reset_level
  reset_level-state level why w = ground arith

  reset_level-bound :
      (level : LifecycleLevel) (why : String) (w : World)
      → (level_number (reset_level now level why w).item.lifecycle_level ≤ level_number level)
        × (level_number (reset_level now level why w).row.lifecycle_level ≤ level_number level)
  unfolding reset_level
  reset_level-bound level why w = ground arith

  pushed_not_reviewed :
      (state : WorkItemState)
      → is_reviewed state ≡ true
      → work_item_transitions state WorkItemEvent.new_head_pushed
        ≡ some WorkItemState.checks_running
  unfolding work_item_transitions
  pushed_not_reviewed state h = ground arith

  -- A push takes the evidence about the old commit away: afterwards the item neither waits for a
  -- review nor is ready for a human, its level and the pull request's are at most `pr_opened`, and
  -- neither has a verified depth.
  pub reverify_new_head_lem :
      (head_sha : String) (w : World)
      → (is_reviewed (reverify_new_head succeeds now head_sha w).item.state ≡ false)
        × (level_number (reverify_new_head succeeds now head_sha w).item.lifecycle_level ≤ 1)
        × (level_number (reverify_new_head succeeds now head_sha w).row.lifecycle_level ≤ 1)
        × ((reverify_new_head succeeds now head_sha w).item.verification_depth ≡ none)
        × ((reverify_new_head succeeds now head_sha w).row.verification_depth ≡ none)
  unfolding reverify_new_head
  reverify_new_head_lem head_sha w =
      let why = concat ("new head " ∷ take_chars 12 head_sha ∷ []) in
      let pushed =
        if is_reviewed w.item.state
        then apply_event succeeds now WorkItemEvent.new_head_pushed why "controller" w
        else w in
      ground (
        arith,
        reset_level-state LifecycleLevel.pr_opened why pushed,
        reset_level-bound LifecycleLevel.pr_opened why pushed,
        apply_event-state WorkItemEvent.new_head_pushed why "controller" w,
        pushed_not_reviewed w.item.state,
      )
