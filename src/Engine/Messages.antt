-- ===== src/Engine/Messages.antt =====
-- The messages to sessions among the calls (hardening_loop/orchestrator/engine.py): an event of a work item
-- sends none.
use superset_hardening_loop.Prelude.{
  ℕ, ◌+◌, String, ◌≡◌, refl, inl, inr, Bool, false, ◌&&◌, not, List, [], ◌∷◌, arith,
}
use superset_hardening_loop.Prelude.Tests.{if◌then◌else◌, Bool-cases, Option-cases}
use superset_hardening_loop.Prelude.Lists.{count, sum_by-append}
use superset_hardening_loop.Domain.WorkItemState.{WorkItemState, in_human_attention}
use superset_hardening_loop.Lifecycle.WorkItem.{WorkItemEvent, work_item_transitions}
use superset_hardening_loop.Engine.World.{Call, World, called}
use superset_hardening_loop.Engine.Apply.{
  blockable, attempt, sync_human_label, move, refused, with_reason, block_reason, apply_event,
}
use superset_hardening_loop.Engine.Laws.{apply_from-moved, apply_from-refused, apply_from-escalated}

-- A message to a session that meets a test.
abbrev pub is_message : (String → Bool) → Call → Bool
is_message to (Call.send_message sid text) = to sid
is_message to _ = false

-- How many messages went to such sessions.
abbrev pub messages : (String → Bool) → List Call → ℕ
messages to cs = count (is_message to) cs

pub messages-called :
    (to : String → Bool) (c : Call) (w : World)
    → messages to (called c w).calls ≡ messages to w.calls + (if is_message to c then 1 else 0)
messages-called to c w =
    ground (arith, sum_by-append (λ x. if is_message to x then 1 else 0) w.calls (c ∷ []))

module _ (succeeds : Call → Bool) (now : ℕ) (to : String → Bool) where
  messages-attempt :
      (c : Call) (then_do : World → World) (w : World)
      → is_message to c ≡ false
      → ((v : World) → messages to (then_do v).calls ≡ messages to v.calls)
      → messages to (attempt succeeds c then_do w).calls ≡ messages to w.calls
  messages-attempt c then_do w e keeps = elim (Bool-cases (succeeds c)) [
    | inl b ↦ ground (arith, keeps (called c w), messages-called to c w)
    | inr b ↦ ground arith
  ]

  messages-ended :
      (c : Call) (w : World)
      → is_message to c ≡ false
      → messages to (attempt succeeds c (λ v. v) w).calls ≡ messages to w.calls
  messages-ended c w e = messages-attempt c (λ v. v) w e (λ v. refl)

  messages-labelled :
      (n : ℕ) (text : String) (w : World)
      → messages to
          (attempt succeeds
            (Call.add_labels n "needs-human")
            (attempt succeeds (Call.comment_issue n text) (λ v. v))
            w).calls
        ≡ messages to w.calls
  messages-labelled n text w =
      let comment = Call.comment_issue n text in
      messages-attempt (Call.add_labels n "needs-human") (attempt succeeds comment (λ v. v)) w refl
        (λ v. messages-ended comment v refl)

  messages-sync_human_label :
      (before after : WorkItemState) (w : World)
      → messages to (sync_human_label succeeds before after w).calls ≡ messages to w.calls
  unfolding sync_human_label
  messages-sync_human_label before after w = elim (Option-cases w.item.issue_number) [
    | inl e ↦ rw (sync_human_label, e) (refl)
    | inr (n, e) ↦ elim (Bool-cases (in_human_attention after && not (in_human_attention before))) [
      | inl b ↦ rw (sync_human_label, e, b) (messages-labelled n _ w)
      | inr b ↦ elim (Bool-cases (in_human_attention before && not (in_human_attention after))) [
        | inl d ↦
            rw (sync_human_label, e, b, d)
              (messages-ended (Call.remove_label n "needs-human") w refl)
        | inr d ↦ rw (sync_human_label, e, b, d) refl
      ]
    ]
  ]

  messages-move :
      (event : WorkItemEvent) (reason actor : String) (after : WorkItemState) (w : World)
      → messages to (move succeeds now event reason actor after w).calls ≡ messages to w.calls
  unfolding move
  messages-move event reason actor after w = messages-sync_human_label _ _ _

  pub messages-apply_event :
      (event : WorkItemEvent) (reason actor : String) (w : World)
      → messages to (apply_event succeeds now event reason actor w).calls ≡ messages to w.calls
  unfolding apply_event
  messages-apply_event event reason actor w =
      elim (Option-cases (work_item_transitions w.item.state event)) [
        | inr (after, e) ↦
            rw (apply_from-moved succeeds now 1 event reason actor w e)
              (messages-move event reason actor after w)
        | inl e ↦ elim (Bool-cases (blockable w.item.state)) [
          | inl b ↦ rw (apply_from-escalated succeeds now 0 event reason actor w e b) (
              messages-move WorkItemEvent.blocked (block_reason w.item.state event) "controller"
                WorkItemState.needs_human
                (with_reason (block_reason w.item.state event) (refused now event reason w)))
          | inr b ↦ rw (apply_from-refused succeeds now 1 event reason actor w e b) (refl)
        ]
      ]
