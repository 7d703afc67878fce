-- ===== src/Engine/Apply.antt =====
-- `_wi`, `_finding`, `_sync_human_label` and `_blockable` (hardening_loop/orchestrator/engine.py).
use superset_hardening_loop.Prelude.{
  ℕ, zero, suc, String, Bool, true, false, ◌&&◌, ◌||◌, not, Option, none, some, List, [], ◌∷◌, ◌++◌,
}
use superset_hardening_loop.Prelude.Tests.{is_some, if◌then◌else◌}
use superset_hardening_loop.Prelude.Lists.{is_empty}
use superset_hardening_loop.Prelude.Text.{codes}
use superset_hardening_loop.Prelude.Strings.{concat}
use superset_hardening_loop.Domain.WorkItemState.{WorkItemState, value, in_human_attention}
use superset_hardening_loop.Domain.FindingState.{in_closing, value as finding_value}
use superset_hardening_loop.Models.Finding.{Finding}
use superset_hardening_loop.Lifecycle.WorkItem.{
  WorkItemEvent, event_value, work_item_transitions, Transition, next_work_item_state,
}
use superset_hardening_loop.Lifecycle.Finding.{
  FindingEvent, next_finding_state, event_value as finding_event_value,
}
use superset_hardening_loop.Engine.World.{Event, entry, Call, World, write, called}

-- `str(InvalidTransitionError(state, event))` and the reason.
abbrev pub refusal : String → String → String → String
refusal state event reason =
    concat ("invalid transition: " ∷ state ∷ " --" ∷ event ∷ "--> ?; reason=" ∷ reason ∷ [])

abbrev pub is_needs_human : WorkItemState → Bool
is_needs_human WorkItemState.needs_human = true
is_needs_human _ = false

abbrev is_blocked_event : WorkItemEvent → Bool
is_blocked_event WorkItemEvent.blocked = true
is_blocked_event _ = false

-- `text or other`: an empty text is no text.
abbrev text_or : Option String → String → String
text_or none other = other
text_or (some t) other = if is_empty (codes t) then other else t

-- `(state, WorkItemEvent.blocked) in _blockable()`
unfoldable pub blockable : WorkItemState → Bool
blockable state = is_some (work_item_transitions state WorkItemEvent.blocked)

-- The entry that records an invalid transition.
abbrev pub refused : ℕ → WorkItemEvent → String → World → World
refused now event reason w =
    write
      (entry now "controller" "work_item" w.item.id "invalid_transition" (value w.item.state)
        (value w.item.state) (refusal (value w.item.state) (event_value event) reason) [])
      w

abbrev pub block_reason : WorkItemState → WorkItemEvent → String
block_reason state event =
    concat ("invalid_transition:" ∷ value state ∷ ":" ∷ event_value event ∷ [])

abbrev pub with_reason : String → World → World
with_reason reason w = record w { item = record w.item { blocked_reason = some reason } }

module _ (succeeds : Call → Bool) where
  -- A call in the `try` block: if it raises, the rest of the block is skipped.
  abbrev pub attempt : Call → (World → World) → World → World
  attempt c then_do w = if succeeds c then then_do (called c w) else w

  unfoldable pub sync_human_label : WorkItemState → WorkItemState → World → World
  sync_human_label before after w = elim w.item.issue_number [
    | none ↦ w
    | some n ↦
        if in_human_attention after && not (in_human_attention before)
        then attempt (Call.add_labels n "needs-human")
            (attempt
              (Call.comment_issue n (
                concat (
                  "**needs-human** ("
                  ∷ value after
                  ∷ "): `"
                  ∷ text_or w.item.blocked_reason "see events"
                  ∷ "`"
                  ∷ [])))
              (λ v. v))
            w
        else if in_human_attention before && not (in_human_attention after)
        then attempt (Call.remove_label n "needs-human") (λ v. v) w
        else w
  ]

  -- The part of `_wi` after a valid transition.
  unfoldable pub move : ℕ → WorkItemEvent → String → String → WorkItemState → World → World
  move now event reason actor after w =
      let before = w.item.state in
      let item = record w.item {
        state = after;
        updated_at = now;
        blocked_reason =
            if is_blocked_event event || is_needs_human after
            then some reason
            else w.item.blocked_reason;
      } in
      sync_human_label before after (
        write
          (entry now actor "work_item" w.item.id (event_value event) (value before) (value after)
            reason [])
          (record w { item = item }))

  -- `_wi`; the fuel bounds its recursion on `blocked`.
  unfoldable pub apply_from : ℕ → ℕ → WorkItemEvent → String → String → World → World
  apply_from zero now event reason actor w = w
  apply_from (suc fuel) now event reason actor w =
      let state = w.item.state in
      let why = block_reason state event in
      let escalated =
        apply_from fuel now WorkItemEvent.blocked why "controller"
          (with_reason why (refused now event reason w)) in
      elim (next_work_item_state state event) [
        | Transition.moved after ↦ move now event reason actor after w
        | Transition.invalid_transition s e ↦
            if not (is_needs_human state) && blockable state
            then escalated
            else refused now event reason w
      ]

  unfoldable pub apply_event : ℕ → WorkItemEvent → String → String → World → World
  apply_event now event reason actor w = apply_from 2 now event reason actor w

-- A finding with the log.
pub record Traced : Type 0 where
  pub finding : Finding
  pub log : List Event

abbrev evidence : Option ℕ → List ℕ
evidence none = []
evidence (some run) = run ∷ []

-- `_finding` on a finding with an id; a finding without one fails the assertion.
unfoldable pub apply_finding_event :
    ℕ → ℕ → FindingEvent → String → String → Option ℕ → Traced → Bool × Traced
apply_finding_event now id event reason actor run_id t =
    let before = t.finding.state in
    elim (next_finding_state before event) [
      | Transition.invalid_transition s e ↦ (
        false,
        record t {
          log =
              t.log
              ++ entry now "controller" "finding" id "invalid_transition" (finding_value before)
                  (finding_value before)
                  (refusal (finding_value before) (finding_event_value event) reason) []
                ∷ [];
        },
      )
      | Transition.moved after ↦ (
        true,
        record {
          finding = record t.finding {
            state = after;
            updated_at = now;
            closed_by_run_id =
                if in_closing after && is_some run_id then run_id else t.finding.closed_by_run_id;
          };
          log =
              t.log
              ++ entry now actor "finding" id (finding_event_value event) (finding_value before)
                  (finding_value after) reason (evidence run_id)
                ∷ [];
        },
      )
    ]
