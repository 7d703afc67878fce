-- ===== src/Lifecycle/Closure.antt =====
-- What closes and reopens a finding (hardening_loop/orchestrator/state.py).
use superset_hardening_loop.Prelude.{◌≡◌, ◌⊎◌, inl, inr, Bool, true, false, List, [], ◌∷◌, arith}
use superset_hardening_loop.Prelude.Lists.{any}
use superset_hardening_loop.Domain.FindingState.{FindingState, in_closing}
use superset_hardening_loop.Lifecycle.WorkItem.{Transition}
use superset_hardening_loop.Lifecycle.Finding.{FindingEvent, next_finding_state}

-- A run of accepted events of a finding.
pub data FindingRun : FindingState → List FindingEvent → FindingState → Type 0 where
  here : {s : FindingState} → FindingRun s [] s
  step :
      {s t u : FindingState} {es : List FindingEvent} (e : FindingEvent)
      → next_finding_state s e ≡ Transition.moved t
      → FindingRun t es u
      → FindingRun s (e ∷ es) u

-- The evidence of a closing run, or a human's resolution of a disagreement.
abbrev pub is_closing : FindingEvent → Bool
is_closing FindingEvent.closing_absent = true
is_closing FindingEvent.closing_vex = true
is_closing FindingEvent.disagreement_resolved = true
is_closing _ = false

-- The evidence that a closed finding is back, or a human's decision.
abbrev pub is_reopening : FindingEvent → Bool
is_reopening FindingEvent.reappeared = true
is_reopening FindingEvent.human_reopened = true
is_reopening _ = false

closing_step :
    (s : FindingState) (e : FindingEvent) {t : FindingState}
    → next_finding_state s e ≡ Transition.moved t
    → in_closing s ≡ false
    → (is_closing e ≡ true) ⊎ (in_closing t ≡ false)
unfolding next_finding_state
closing_step s e h r = ground arith

reopening_step :
    (s : FindingState) (e : FindingEvent) {t : FindingState}
    → next_finding_state s e ≡ Transition.moved t
    → in_closing s ≡ true
    → (is_reopening e ≡ true) ⊎ (in_closing t ≡ true)
unfolding next_finding_state
reopening_step s e h r = ground arith

-- A run of a finding from a state that is not closed to a closed one contains a closing event.
pub closed_needs_evidence :
    {s t : FindingState} {es : List FindingEvent}
    → FindingRun s es t
    → in_closing s ≡ false
    → in_closing t ≡ true
    → any is_closing es ≡ true
closed_needs_evidence here hs ht = cc
closed_needs_evidence (step {s} {t} e h r) hs ht = elim (closing_step s e h hs) [
  | inl closing ↦ ground (arith, closing)
  | inr still ↦ ground (arith, closed_needs_evidence r still ht)
]

-- A run from a closed state to one that is not closed contains a reappearance or a human's
-- reopening.
pub reopened_needs_cause :
    {s t : FindingState} {es : List FindingEvent}
    → FindingRun s es t
    → in_closing s ≡ true
    → in_closing t ≡ false
    → any is_reopening es ≡ true
reopened_needs_cause here hs ht = cc
reopened_needs_cause (step {s} {t} e h r) hs ht = elim (reopening_step s e h hs) [
  | inl cause ↦ ground (arith, cause)
  | inr still ↦ ground (arith, reopened_needs_cause r still ht)
]
