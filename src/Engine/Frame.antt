-- ===== src/Engine/Frame.antt =====
-- What the steps on a pull request leave alone (hardening_loop/orchestrator/engine.py): an event of a work
-- item keeps the row and the retries, and only a completed review makes an item ready for a human.
use superset_hardening_loop.Prelude.{
  ℕ, String, ◌≡◌, refl, ap, ◌∙◌, inl, inr, Bool, true, false, arith,
}
use superset_hardening_loop.Prelude.Tests.{get_or, if◌then◌else◌, Bool-cases, Option-cases}
use superset_hardening_loop.Domain.WorkItemState.{WorkItemState}
use superset_hardening_loop.Lifecycle.WorkItem.{WorkItemEvent, work_item_transitions}
use superset_hardening_loop.Engine.World.{WorkItem, Call, World}
use superset_hardening_loop.Engine.Apply.{
  blockable, move, refused, with_reason, block_reason, apply_event,
}
use superset_hardening_loop.Engine.Laws.{
  item-sync_human_label, row-sync_human_label, apply_from-moved, apply_from-refused,
  apply_from-escalated, apply_event-state,
}
use superset_hardening_loop.Engine.Follow.{is_ready}

-- The row, the retries and the human's resolution are the same.
abbrev pub Framed : World → World → Type 0
Framed w v =
    (v.row ≡ w.row)
    × (v.item.retries_used ≡ w.item.retries_used)
    × (v.item.human_resolution ≡ w.item.human_resolution)

abbrev pub is_completion : WorkItemEvent → Bool
is_completion WorkItemEvent.review_completed = true
is_completion _ = false

next_unready :
    (state : WorkItemState) (event : WorkItemEvent)
    → is_completion event ≡ false
    → is_ready (
        get_or
          (work_item_transitions state event)
          (if blockable state then WorkItemState.needs_human else state))
      ≡ false
unfolding work_item_transitions blockable
next_unready state event h = ground arith

module _ (succeeds : Call → Bool) (now : ℕ) where
  move-Framed :
      (event : WorkItemEvent) (reason actor : String) (after : WorkItemState) (w : World)
      → Framed w (move succeeds now event reason actor after w)
  unfolding move
  move-Framed event reason actor after w = (
    row-sync_human_label succeeds now _ _ _,
    ap (λ (i : WorkItem). i.retries_used) (item-sync_human_label succeeds now _ _ _),
    ap (λ (i : WorkItem). i.human_resolution) (item-sync_human_label succeeds now _ _ _),
  )

  pub apply_event-Framed :
      (event : WorkItemEvent) (reason actor : String) (w : World)
      → Framed w (apply_event succeeds now event reason actor w)
  unfolding apply_event
  apply_event-Framed event reason actor w =
      elim (Option-cases (work_item_transitions w.item.state event)) [
        | inr (after, e) ↦
            rw (apply_from-moved succeeds now 1 event reason actor w e)
              (move-Framed event reason actor after w)
        | inl e ↦ elim (Bool-cases (blockable w.item.state)) [
          | inl b ↦ rw (apply_from-escalated succeeds now 0 event reason actor w e b) (
              move-Framed WorkItemEvent.blocked (block_reason w.item.state event) "controller"
                WorkItemState.needs_human
                (with_reason (block_reason w.item.state event) (refused now event reason w)))
          | inr b ↦
              rw (apply_from-refused succeeds now 1 event reason actor w e b) ((refl, refl, refl))
        ]
      ]

  -- No event but a completed review leaves an item ready for a human.
  pub apply_event-unready :
      (event : WorkItemEvent) (reason actor : String) (w : World)
      → is_completion event ≡ false
      → is_ready (apply_event succeeds now event reason actor w).item.state ≡ false
  apply_event-unready event reason actor w h =
      ap is_ready (apply_event-state succeeds now event reason actor w)
      ∙ next_unready w.item.state event h
