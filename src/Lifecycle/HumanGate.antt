-- ===== src/Lifecycle/HumanGate.antt =====
-- What a run through the work item machine must contain (hardening_loop/orchestrator/state.py):
-- the human decisions before a verified or merged state.
use superset_hardening_loop.Prelude.{◌≡◌, ◌⊎◌, inl, inr, Bool, true, false, List, [], ◌∷◌, arith}
use superset_hardening_loop.Prelude.Tests.{if◌then◌else◌}
use superset_hardening_loop.Prelude.Lists.{any}
use superset_hardening_loop.Domain.WorkItemState.{WorkItemState, in_active}
use superset_hardening_loop.Lifecycle.WorkItem.{WorkItemEvent, Transition, next_work_item_state}

-- A run of accepted events from one state to another.
pub data Run : WorkItemState → List WorkItemEvent → WorkItemState → Type 0 where
  here : {s : WorkItemState} → Run s [] s
  step :
      {s t u : WorkItemState} {es : List WorkItemEvent} (e : WorkItemEvent)
      → next_work_item_state s e ≡ Transition.moved t
      → Run t es u
      → Run s (e ∷ es) u

-- The two events by which a human lets a work item through to the closing rescan.
abbrev pub is_human_release : WorkItemEvent → Bool
is_human_release WorkItemEvent.human_merged = true
is_human_release WorkItemEvent.human_resolved = true
is_human_release _ = false

abbrev pub is_rescan_verified : WorkItemEvent → Bool
is_rescan_verified WorkItemEvent.rescan_verified = true
is_rescan_verified _ = false

abbrev pub is_dispatch_started : WorkItemEvent → Bool
is_dispatch_started WorkItemEvent.dispatch_started = true
is_dispatch_started _ = false

-- The states behind a human's release.
abbrev pub is_released : WorkItemState → Bool
is_released WorkItemState.merged = true
is_released WorkItemState.awaiting_rescan = true
is_released WorkItemState.verified = true
is_released _ = false

-- The states before any session was dispatched.
abbrev pub is_undispatched : WorkItemState → Bool
is_undispatched WorkItemState.queued = true
is_undispatched WorkItemState.issue_open = true
is_undispatched _ = false

abbrev pub is_verified : WorkItemState → Bool
is_verified WorkItemState.verified = true
is_verified _ = false

released_step :
    (s : WorkItemState) (e : WorkItemEvent) {t : WorkItemState}
    → next_work_item_state s e ≡ Transition.moved t
    → is_released s ≡ false
    → (is_human_release e ≡ true) ⊎ (is_released t ≡ false)
unfolding next_work_item_state
released_step s e h r = ground arith

-- A run that starts in a state not yet released by a human and ends merged, awaiting the rescan
-- or verified contains a human merge or a human resolution.
pub released_needs_human :
    {s t : WorkItemState} {es : List WorkItemEvent}
    → Run s es t
    → is_released s ≡ false
    → is_released t ≡ true
    → any is_human_release es ≡ true
released_needs_human here hs ht = cc
released_needs_human (step {s} {t} e h r) hs ht = elim (released_step s e h hs) [
  | inl human ↦ ground (arith, human)
  | inr still ↦ ground (arith, released_needs_human r still ht)
]

verified_step :
    (s : WorkItemState) (e : WorkItemEvent) {t : WorkItemState}
    → next_work_item_state s e ≡ Transition.moved t
    → is_verified s ≡ false
    → (is_rescan_verified e ≡ true) ⊎ (is_verified t ≡ false)
unfolding next_work_item_state
verified_step s e h r = ground arith

-- A run that starts unverified and ends verified contains a verifying rescan.
pub verified_needs_rescan :
    {s t : WorkItemState} {es : List WorkItemEvent}
    → Run s es t
    → is_verified s ≡ false
    → is_verified t ≡ true
    → any is_rescan_verified es ≡ true
verified_needs_rescan here hs ht = cc
verified_needs_rescan (step {s} {t} e h r) hs ht = elim (verified_step s e h hs) [
  | inl seen ↦ ground (arith, seen)
  | inr still ↦ ground (arith, verified_needs_rescan r still ht)
]

-- No session and no pull request of this run of the machine is under way.
abbrev pub is_idle : WorkItemState → Bool
is_idle WorkItemState.ready_for_human = false
is_idle s = if in_active s then false else true

idle_step :
    (s : WorkItemState) (e : WorkItemEvent) {t : WorkItemState}
    → next_work_item_state s e ≡ Transition.moved t
    → is_idle s ≡ true
    → (is_dispatch_started e ≡ true) ⊎ (is_idle t ≡ true)
unfolding next_work_item_state
idle_step s e h r = ground arith

-- A run that starts idle and ends with a session or a pull request under way contains the start of
-- a dispatch.
pub active_needs_dispatch :
    {s t : WorkItemState} {es : List WorkItemEvent}
    → Run s es t
    → is_idle s ≡ true
    → is_idle t ≡ false
    → any is_dispatch_started es ≡ true
active_needs_dispatch here hs ht = cc
active_needs_dispatch (step {s} {t} e h r) hs ht = elim (idle_step s e h hs) [
  | inl started ↦ ground (arith, started)
  | inr still ↦ ground (arith, active_needs_dispatch r still ht)
]
