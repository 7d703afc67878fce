-- ===== src/Engine/Judged.antt =====
-- What the first part of `_close_work_item` (hardening_loop/orchestrator/engine.py) leaves of the findings: those
-- of the database, the members among them with their judgement.
use superset_hardening_loop.Prelude.{
  ℕ, String, ◌≡◌, refl, sym, ap, subst, inl, inr, ◌⊎◌, Bool, true, false, Option, none, some, List,
  [], ◌∷◌, arith,
}
use superset_hardening_loop.Prelude.Tests.{get_or, if◌then◌else◌, Bool-cases, Option-cases}
use superset_hardening_loop.Prelude.Equality.{nat_eq}
use superset_hardening_loop.Domain.WorkItemState.{WorkItemState}
use superset_hardening_loop.Domain.FindingState.{FindingState}
use superset_hardening_loop.Models.Scan.{ScanRun, ScanJob, Sighting}
use superset_hardening_loop.Models.Finding.{Finding}
use superset_hardening_loop.Lifecycle.WorkItem.{WorkItemEvent, work_item_transitions}
use superset_hardening_loop.Lifecycle.Finding.{FindingEvent}
use superset_hardening_loop.Vex.{CharClasses, Checked, VexFault}
use superset_hardening_loop.Closer.Validity.{Outside}
use superset_hardening_loop.Closer.Decide.{ClosingOutcome}
use superset_hardening_loop.Engine.World.{WorkItem, Event, Call, World}
use superset_hardening_loop.Engine.Apply.{
  sync_human_label, move, apply_event, blockable, refused, with_reason, block_reason, Traced,
  apply_finding_event,
}
use superset_hardening_loop.Engine.Laws.{
  item-sync_human_label, apply_from-moved, apply_from-refused, apply_from-escalated,
}
use superset_hardening_loop.Engine.Archive.{Archive}
use superset_hardening_loop.Engine.Judging.{
  Judged, is_member, settle, member_states, judge, judge_members, findings_of,
}

-- An event of a work item changes no finding.
module _ (succeeds : Call → Bool) (now : ℕ) where
  findings-sync_human_label :
      (before after : WorkItemState) (w : World)
      → (sync_human_label succeeds before after w).findings ≡ w.findings
  unfolding sync_human_label
  findings-sync_human_label before after w = ground arith

  id-sync_human_label :
      (before after : WorkItemState) (w : World)
      → (sync_human_label succeeds before after w).item.id ≡ w.item.id
  id-sync_human_label before after w =
      ap (λ (i : WorkItem). i.id) (item-sync_human_label succeeds now before after w)

  findings-move :
      (event : WorkItemEvent) (reason actor : String) (after : WorkItemState) (w : World)
      → ((move succeeds now event reason actor after w).findings ≡ w.findings)
        × ((move succeeds now event reason actor after w).item.id ≡ w.item.id)
  unfolding move
  findings-move event reason actor after w =
      (findings-sync_human_label _ _ _, id-sync_human_label _ _ _)

  pub findings-apply_event :
      (event : WorkItemEvent) (reason actor : String) (w : World)
      → ((apply_event succeeds now event reason actor w).findings ≡ w.findings)
        × ((apply_event succeeds now event reason actor w).item.id ≡ w.item.id)
  unfolding apply_event
  findings-apply_event event reason actor w =
      elim (Option-cases (work_item_transitions w.item.state event)) [
        | inr (after, e) ↦
            rw (apply_from-moved succeeds now 1 event reason actor w e)
              (findings-move event reason actor after w)
        | inl e ↦ elim (Bool-cases (blockable w.item.state)) [
          | inl b ↦ rw (apply_from-escalated succeeds now 0 event reason actor w e b) (
              findings-move WorkItemEvent.blocked (block_reason w.item.state event) "controller"
                WorkItemState.needs_human
                (with_reason (block_reason w.item.state event) (refused now event reason w)))
          | inr b ↦ rw (apply_from-refused succeeds now 1 event reason actor w e b) ((refl, refl))
        ]
      ]

abbrev pub is_verified : WorkItemState → Bool
is_verified WorkItemState.verified = true
is_verified _ = false

pub started_not_verified :
    (s : WorkItemState)
    → is_verified s ≡ false
    → is_verified (
        get_or
          (work_item_transitions s WorkItemEvent.rescan_started)
          (if blockable s then WorkItemState.needs_human else s))
      ≡ false
unfolding work_item_transitions
started_not_verified s h = ground arith

pub shown_not_verified :
    (s : WorkItemState)
    → is_verified s ≡ false
    → is_verified (
        get_or
          (work_item_transitions s WorkItemEvent.rescan_shows_present)
          (if blockable s then WorkItemState.needs_human else s))
      ≡ false
unfolding work_item_transitions
shown_not_verified s h = ground arith

-- The states of an item's members.
abbrev pub states_of : WorkItem → List Finding → List FindingState
states_of wi [] = []
states_of wi (f ∷ fs) = if is_member wi f then f.state ∷ states_of wi fs else states_of wi fs

apply_finding_event-work_item_id :
    (now id : ℕ) (event : FindingEvent) (reason actor : String) (run_id : Option ℕ) (t : Traced)
    → (apply_finding_event now id event reason actor run_id t).1.finding.work_item_id
      ≡ t.finding.work_item_id
unfolding apply_finding_event
apply_finding_event-work_item_id now id event reason actor run_id t = ground (arith)

settle-work_item_id :
    (now : ℕ) (run : ScanRun) (outcome : ClosingOutcome) (f : Finding) (log : List Event)
    → (settle now run outcome f log).finding.work_item_id ≡ f.work_item_id
unfolding settle
settle-work_item_id now run ClosingOutcome.fixed f log =
    apply_finding_event-work_item_id now _ _ _ _ _ _
settle-work_item_id now run ClosingOutcome.approved_disposition f log =
    apply_finding_event-work_item_id now _ _ _ _ _ _
settle-work_item_id now run ClosingOutcome.scanner_disagreement_resolved f log =
    apply_finding_event-work_item_id now _ _ _ _ _ _
settle-work_item_id now run ClosingOutcome.regression f log = refl
settle-work_item_id now run ClosingOutcome.human_blocked f log = refl
settle-work_item_id now run ClosingOutcome.still_present f log = refl
settle-work_item_id now run ClosingOutcome.not_applicable f log = refl

pub Checked-cases :
    {A : Type 0} (c : Checked A)
    → ((a : A) × (c ≡ Checked.ok a)) ⊎ ((e : VexFault) × (c ≡ Checked.fault e))
Checked-cases (Checked.ok a) = inl (a, refl)
Checked-cases (Checked.fault e) = inr (e, refl)

module _ (out : Outside) (cs : CharClasses) (archive : Archive) (now : ℕ) (wi : WorkItem)
    (everything : List Finding) (run : ScanRun) (jobs : List ScanJob)
    (sightings : List Sighting) where
  -- How the first loop leaves each finding: another item's as it was, a member judged and settled.
  abbrev pub IsJudged : List Finding → Judged → Type 0
  IsJudged [] [] = Unit
  IsJudged (f ∷ fs) ((g, none) ∷ js) = (is_member wi f ≡ false) × (g ≡ f) × IsJudged fs js
  IsJudged (f ∷ fs) ((g, some j) ∷ js) =
      (is_member wi f ≡ true)
      × (judge out cs archive now wi everything run jobs sightings f ≡ Checked.ok j)
      × ((log : List Event) × (g ≡ (settle now run j.outcome f log).finding))
      × IsJudged fs js
  IsJudged _ _ = ⊥

  pub judge_members-IsJudged :
      (fs : List Finding) (log : List Event) {r : Judged × List Event}
      → judge_members out cs archive now wi everything run jobs sightings fs log ≡ Checked.ok r
      → IsJudged fs r.0
  unfolding judge_members
  judge_members-IsJudged [] log {r} h =
      let e : r ≡ ([], log) = ground arith in subst (λ q. IsJudged [] q.0) (sym e) tt
  judge_members-IsJudged (f ∷ fs) log {r} h = elim (Bool-cases (is_member wi f)) [
    | inl m ↦ elim (Checked-cases (judge out cs archive now wi everything run jobs sightings f)) [
      | inr (fault, e) ↦ absurd (ground arith)
      | inl (j, judged) ↦
          let t = settle now run j.outcome f log in
          elim (Checked-cases
            (judge_members out cs archive now wi everything run jobs sightings fs t.log)) [
              | inr (fault, q) ↦ absurd (ground arith)
              | inl (rest, q) ↦
                  let e : r ≡ ((t.finding, some j) ∷ rest.0, rest.1) = ground arith in
                  subst (λ q. IsJudged (f ∷ fs) q.0) (sym e)
                    ((m, judged, (log, refl), judge_members-IsJudged fs t.log q))
            ]
    ]
    | inr m ↦
        elim (Checked-cases
          (judge_members out cs archive now wi everything run jobs sightings fs log)) [
            | inr (fault, q) ↦ absurd (ground arith)
            | inl (rest, q) ↦
                let e : r ≡ ((f, none) ∷ rest.0, rest.1) = ground arith in
                subst (λ q. IsJudged (f ∷ fs) q.0) (sym e)
                  ((m, refl, judge_members-IsJudged fs log q))
          ]
  ]

  pub IsJudged-states_of :
      (fs : List Finding) (js : Judged)
      → IsJudged fs js
      → member_states js ≡ states_of wi (findings_of js)
  IsJudged-states_of [] [] h = refl
  IsJudged-states_of [] (j ∷ js) h = absurd h
  IsJudged-states_of (f ∷ fs) [] h = absurd h
  IsJudged-states_of (f ∷ fs) ((g, none) ∷ js) h = ground (arith, IsJudged-states_of fs js h.2)
  IsJudged-states_of (f ∷ fs) ((g, some j) ∷ js) h =
      let (log, e) = h.2 in
      ground (arith, settle-work_item_id now run j.outcome f log, IsJudged-states_of fs js h.3)

states_of_id :
    (a b : WorkItem) (fs : List Finding) → states_of (record a { id = b.id }) fs ≡ states_of b fs
states_of_id a b [] = refl
states_of_id a b (f ∷ fs) = ground (arith, states_of_id a b fs)

pub states_of_same :
    (a b : WorkItem) (fs : List Finding) → a.id ≡ b.id → states_of a fs ≡ states_of b fs
states_of_same a b fs h =
    subst (λ i. states_of (record a { id = i }) fs ≡ states_of b fs) (sym h) (states_of_id a b fs)
