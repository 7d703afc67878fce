-- ===== src/Engine/Audit.antt =====
-- The log of a work item (hardening_loop/orchestrator/engine.py): it alone tells the item's state.
use superset_hardening_loop.Prelude.{
  ℕ, String, ◌≡◌, refl, sym, ap, subst, ◌∙◌, inl, inr, Bool, true, false, Option, none, some, List,
  [], ◌∷◌, ◌++◌, arith,
}
use superset_hardening_loop.Prelude.Tests.{if◌then◌else◌, Bool-cases, Option-cases}
use superset_hardening_loop.Prelude.Equality.{string_eq, ◌==◌}
use superset_hardening_loop.Domain.WorkItemState.{WorkItemState, value}
use superset_hardening_loop.Domain.LifecycleLevel.{LifecycleLevel}
use superset_hardening_loop.Lifecycle.WorkItem.{WorkItemEvent, work_item_transitions, event_value}
use superset_hardening_loop.Engine.World.{WorkItem, Event, Call, World}
use superset_hardening_loop.Engine.Apply.{sync_human_label, move, apply_event, blockable, refused}
use superset_hardening_loop.Engine.Levels.{raise_level, reset_level, log_level}
use superset_hardening_loop.Engine.Laws.{
  apply_from-moved, apply_from-refused, apply_from-escalated, item-sync_human_label,
}

-- Reading one entry: a change of level says nothing about the state; any other entry has to start
-- from the state reached so far.
abbrev pub read_entry : Option String → Event → Option String
read_entry none e = none
read_entry (some s) e =
    if e.event == "lifecycle_level"
    then some s
    else if elim e.from_state [ none ↦ false | some f ↦ f == s ]
    then e.to_state
    else none

abbrev pub replay : Option String → List Event → Option String
replay s [] = s
replay s (e ∷ es) = replay (read_entry s e) es

replay-append :
    (s : Option String) (es : List Event) (e : Event)
    → replay s (es ++ e ∷ []) ≡ read_entry (replay s es) e
replay-append s [] e = refl
replay-append s (x ∷ es) e = replay-append (read_entry s x) es e

event_not_level : (event : WorkItemEvent) → (event_value event == "lifecycle_level") ≡ false
event_not_level WorkItemEvent.dispatch_approved = refl
event_not_level WorkItemEvent.issue_created = refl
event_not_level WorkItemEvent.dispatch_started = refl
event_not_level WorkItemEvent.session_created = refl
event_not_level WorkItemEvent.session_adopted = refl
event_not_level WorkItemEvent.dispatch_failed = refl
event_not_level WorkItemEvent.pr_opened = refl
event_not_level WorkItemEvent.checks_started = refl
event_not_level WorkItemEvent.checks_green = refl
event_not_level WorkItemEvent.checks_red = refl
event_not_level WorkItemEvent.retry_sent = refl
event_not_level WorkItemEvent.retries_exhausted = refl
event_not_level WorkItemEvent.new_head_pushed = refl
event_not_level WorkItemEvent.review_completed = refl
event_not_level WorkItemEvent.review_not_observed = refl
event_not_level WorkItemEvent.human_merged = refl
event_not_level WorkItemEvent.pr_closed_unmerged = refl
event_not_level WorkItemEvent.rescan_started = refl
event_not_level WorkItemEvent.rescan_verified = refl
event_not_level WorkItemEvent.rescan_shows_present = refl
event_not_level WorkItemEvent.blocked = refl
event_not_level WorkItemEvent.human_retry = refl
event_not_level WorkItemEvent.operator_cancelled = refl
event_not_level WorkItemEvent.human_abandoned = refl
event_not_level WorkItemEvent.human_resolved = refl
event_not_level WorkItemEvent.superseded = refl

replay-entry :
    (o : Option String) (es : List Event) (e : Event) {s : String}
    → replay o es ≡ some s
    → (e.event == "lifecycle_level") ≡ false
    → e.from_state ≡ some s
    → replay o (es ++ e ∷ []) ≡ e.to_state
replay-entry o es e {s} h named from =
    ground
      (arith, replay-append o es e, ap (λ r. read_entry r e) h, (string_eq.agree_iff s s).1 refl)

replay-level :
    (o : Option String) (es : List Event) (e : Event) {s : String}
    → replay o es ≡ some s
    → (e.event == "lifecycle_level") ≡ true
    → replay o (es ++ e ∷ []) ≡ some s
replay-level o es e {s} h named = ground (arith, replay-append o es e, ap (λ r. read_entry r e) h)

-- The log, read from a start, ends in the item's state.
abbrev pub IsAudited : String → World → Type 0
IsAudited start w = replay (some start) w.log ≡ some (value w.item.state)

module _ (succeeds : Call → Bool) (now : ℕ) (start : String) where
  log-sync_human_label :
      (before after : WorkItemState) (w : World)
      → (sync_human_label succeeds before after w).log ≡ w.log
  unfolding sync_human_label
  log-sync_human_label before after w = ground arith

  refused-IsAudited :
      (event : WorkItemEvent) (reason : String) (w : World)
      → IsAudited start w
      → IsAudited start (refused now event reason w)
  refused-IsAudited event reason w h = replay-entry (some start) w.log _ h refl refl

  move-IsAudited :
      (event : WorkItemEvent) (reason actor : String) (after : WorkItemState) (w : World)
      → IsAudited start w
      → IsAudited start (move succeeds now event reason actor after w)
  unfolding move
  move-IsAudited event reason actor after w h =
      ap (replay (some start)) (log-sync_human_label _ _ _)
      ∙ replay-entry (some start) w.log _ h (event_not_level event) refl
      ∙ ap (λ (i : WorkItem). some (value i.state)) (sym (item-sync_human_label succeeds now _ _ _))

  apply_event-IsAudited :
      (event : WorkItemEvent) (reason actor : String) (w : World)
      → IsAudited start w
      → IsAudited start (apply_event succeeds now event reason actor w)
  unfolding apply_event
  apply_event-IsAudited event reason actor w h =
      elim (Option-cases (work_item_transitions w.item.state event)) [
        | inr (after, e) ↦
            subst (IsAudited start) (sym (apply_from-moved succeeds now 1 event reason actor w e))
              (move-IsAudited event reason actor after w h)
        | inl e ↦ elim (Bool-cases (blockable w.item.state)) [
          | inl b ↦
              subst (IsAudited start)
                (sym (apply_from-escalated succeeds now 0 event reason actor w e b))
                (move-IsAudited WorkItemEvent.blocked _ _ _ _ (refused-IsAudited event reason w h))
          | inr b ↦
              subst (IsAudited start)
                (sym (apply_from-refused succeeds now 1 event reason actor w e b))
                (refused-IsAudited event reason w h)
        ]
      ]

  log_level-IsAudited :
      (level : LifecycleLevel) (why : String) (w : World)
      → IsAudited start w
      → IsAudited start (log_level now level why w)
  log_level-IsAudited level why w h = replay-level (some start) w.log _ h refl

  raise_level-IsAudited :
      (level : LifecycleLevel) (why : String) (w : World)
      → IsAudited start w
      → IsAudited start (raise_level now level why w)
  unfolding raise_level
  raise_level-IsAudited level why w h = ground (arith, log_level-IsAudited level why w h)

  reset_level-IsAudited :
      (level : LifecycleLevel) (why : String) (w : World)
      → IsAudited start w
      → IsAudited start (reset_level now level why w)
  unfolding reset_level
  reset_level-IsAudited level why w h = ground (arith, log_level-IsAudited level why w h)

-- What the engine does to an item, one after another, each at its own time.
pub data Step : Type 0 where
  event : ℕ → WorkItemEvent → String → String → Step
  raise : ℕ → LifecycleLevel → String → Step
  reset : ℕ → LifecycleLevel → String → Step

abbrev step : (Call → Bool) → Step → World → World
step succeeds (Step.event now e reason actor) w = apply_event succeeds now e reason actor w
step succeeds (Step.raise now level why) w = raise_level now level why w
step succeeds (Step.reset now level why) w = reset_level now level why w

abbrev pub run_steps : (Call → Bool) → List Step → World → World
run_steps succeeds [] w = w
run_steps succeeds (s ∷ ss) w = run_steps succeeds ss (step succeeds s w)

step-IsAudited :
    (succeeds : Call → Bool) (start : String) (s : Step) (w : World)
    → IsAudited start w
    → IsAudited start (step succeeds s w)
step-IsAudited succeeds start (Step.event now e reason actor) w h =
    apply_event-IsAudited succeeds now start e reason actor w h
step-IsAudited succeeds start (Step.raise now level why) w h =
    raise_level-IsAudited succeeds now start level why w h
step-IsAudited succeeds start (Step.reset now level why) w h =
    reset_level-IsAudited succeeds now start level why w h

-- The log alone tells the state of an item: if its entries lead from a start to the state of the item,
-- each of them beginning where the one before ended, they still do after any sequence of events, valid
-- or not, and of changes of level, whichever calls on GitHub fail.
pub run_steps-IsAudited :
    (succeeds : Call → Bool) (start : String) (ss : List Step) (w : World)
    → IsAudited start w
    → IsAudited start (run_steps succeeds ss w)
run_steps-IsAudited succeeds start [] w h = h
run_steps-IsAudited succeeds start (s ∷ ss) w h =
    run_steps-IsAudited succeeds start ss (step succeeds s w) (step-IsAudited succeeds start s w h)
