-- ===== src/Engine/Evidence.antt =====
-- What backs a finding that `_close_work_item` closes (hardening_loop/orchestrator/engine.py).
use superset_hardening_loop.Prelude.{
  ℕ, ◌≡◌, sym, ap, subst, ◌∙◌, inl, inr, ◌⊎◌, Bool, true, false, none, some, List, [], ◌∷◌, arith,
}
use superset_hardening_loop.Prelude.Tests.{Bool-cases}
use superset_hardening_loop.Prelude.Equality.{same_option-some, string_eq, nat_eq}
use superset_hardening_loop.Prelude.Lists.{any, is_empty}
use superset_hardening_loop.Domain.FindingState.{FindingState, in_closing}
use superset_hardening_loop.Models.Scan.{ScanRun, ScanJob, Sighting}
use superset_hardening_loop.Models.Finding.{Finding}
use superset_hardening_loop.Lifecycle.WorkItem.{WorkItemEvent}
use superset_hardening_loop.Vex.{CharClasses, Checked}
use superset_hardening_loop.Closer.Validity.{Outside}
use superset_hardening_loop.Closer.Absence.{IsClosingRun, validate_closing_run_sound}
use superset_hardening_loop.Closer.Decide.{
  ClosingOutcome, sightings_for, decide_outcome, issue_may_close,
}
use superset_hardening_loop.Closer.Disposition.{
  NoneReports, judges, IsApproved, approved_disposition_only_if, fixed_means_absent,
}
use superset_hardening_loop.Engine.World.{WorkItem, Event, Call, World, Attempt}
use superset_hardening_loop.Engine.Apply.{apply_event}
use superset_hardening_loop.Engine.Archive.{Archive, later_run_saw, family_ids}
use superset_hardening_loop.Engine.Judging.{
  Judgement, Judged, member_states, is_member, require_policy, disagreement_resolved, settle,
  judgements, block_one, block_still, validity_of, judge, judge_members, findings_of, after_judging,
  is_not_applicable, is_merged, still_ids, still_reason, invalid_reason, evaluated_reason,
}
use superset_hardening_loop.Engine.Closing.{report_still, conclude, close_work_item}
use superset_hardening_loop.Engine.Judged.{
  Checked-cases, IsJudged, judge_members-IsJudged, findings-apply_event,
}
use superset_hardening_loop.Engine.Verified.{finish, verify-Keeps}
use superset_hardening_loop.Engine.Settling.{Sets, settle_state, block_one_state, resolved_only_if}

module _ (out : Outside) (cs : CharClasses) (archive : Archive) (now : ℕ) (wi : WorkItem)
    (everything : List Finding) (run : ScanRun) (jobs : List ScanJob)
    (sightings : List Sighting) where
  -- What backs each of the three closed states.
  abbrev pub IsBacked : Finding → FindingState → Type 0
  IsBacked f FindingState.fixed = NoneReports f run (family_ids everything f) sightings (judges f)
  IsBacked f FindingState.approved_disposition = IsApproved cs run wi.issue_url f.vuln_id
  IsBacked f FindingState.scanner_disagreement_resolved =
      wi.human_resolution ≡ some "disagreement:resolved"
  IsBacked f _ = ⊥

  abbrev pub IsClosingFor : Finding → Type 0
  IsClosingFor f =
      IsClosingRun out run jobs f wi.merge_sha (require_policy wi) (later_run_saw archive run f)

  -- A finding has the state that it had, or it belongs to the item and is not closed, or closed on this
  -- evidence.
  abbrev pub SettledIn : Finding → FindingState → Type 0
  SettledIn f s =
      (s ≡ f.state)
      ⊎ ((f.work_item_id ≡ some wi.id) × ((in_closing s ≡ false) ⊎ (IsClosingFor f × IsBacked f s)))

  abbrev pub Settled : Finding → Finding → Type 0
  Settled f g = SettledIn f g.state

  abbrev decided : Finding → Checked ClosingOutcome
  decided f =
      decide_outcome cs f run (sightings_for f run sightings (family_ids everything f))
        (validity_of out cs archive now wi run jobs f) (disagreement_resolved wi) wi.issue_url
        (in_closing f.state)

  judge-decided :
      (f : Finding) {j : Judgement}
      → judge out cs archive now wi everything run jobs sightings f ≡ Checked.ok j
      → decided f ≡ Checked.ok j.outcome
  unfolding judge
  judge-decided f h = ground arith

  decided_backs :
      (f : Finding) (o : ClosingOutcome) (s : FindingState)
      → decided f ≡ Checked.ok o
      → Sets o s
      → IsClosingFor f × IsBacked f s
  unfolding validity_of
  decided_backs f ClosingOutcome.fixed s h e =
      let (closing, absent) =
        fixed_means_absent cs out f run jobs sightings (family_ids everything f) wi.merge_sha
          (require_policy wi) (later_run_saw archive run f) (disagreement_resolved wi) wi.issue_url
          (in_closing f.state) h in
      subst (λ t. IsClosingFor f × IsBacked f t) (sym e) ((closing, absent))
  decided_backs f ClosingOutcome.approved_disposition s h e =
      let found =
        approved_disposition_only_if cs f run _ _ (disagreement_resolved wi) wi.issue_url
          (in_closing f.state) h in
      let closing =
        validate_closing_run_sound out run jobs f wi.merge_sha (require_policy wi)
          (later_run_saw archive run f) found.0 in
      subst (λ t. IsClosingFor f × IsBacked f t) (sym e) ((closing, found.5))
  decided_backs f ClosingOutcome.scanner_disagreement_resolved s h e =
      let (valid, human) =
        resolved_only_if cs f run _ _ (disagreement_resolved wi) wi.issue_url (in_closing f.state)
          h in
      let closing =
        validate_closing_run_sound out run jobs f wi.merge_sha (require_policy wi)
          (later_run_saw archive run f) valid in
      subst (λ t. IsClosingFor f × IsBacked f t) (sym e)
        ((closing, same_option-some wi.human_resolution "disagreement:resolved" human))
  decided_backs f ClosingOutcome.regression s h e = absurd e
  decided_backs f ClosingOutcome.human_blocked s h e = absurd e
  decided_backs f ClosingOutcome.still_present s h e = absurd e
  decided_backs f ClosingOutcome.not_applicable s h e = absurd e

  is_member-owned : (f : Finding) → is_member wi f ≡ true → f.work_item_id ≡ some wi.id
  is_member-owned f m = same_option-some f.work_item_id wi.id m

  Settled-of_judge :
      (f : Finding) (j : Judgement) (log : List Event)
      → is_member wi f ≡ true
      → judge out cs archive now wi everything run jobs sightings f ≡ Checked.ok j
      → Settled f (settle now run j.outcome f log).finding
  Settled-of_judge f j log m h = elim (settle_state now run j.outcome f log) [
    | inl same ↦ inl same
    | inr sets ↦
        inr ((is_member-owned f m, inr (decided_backs f j.outcome _ (judge-decided f h) sets)))
  ]

  blocked-Settled :
      (f g : Finding) (j : Judgement) (log : List Event)
      → is_member wi f ≡ true
      → Settled f g
      → Settled f (block_one now run g (some j) log).finding
  blocked-Settled f g j log m h = elim (block_one_state now run g (some j) log) [
    | inl same ↦ subst (λ s. SettledIn f s) (sym same) h
    | inr not_closed ↦ inr ((is_member-owned f m, inl not_closed))
  ]

  abbrev pub AllSettled : List Finding → List Finding → Type 0
  AllSettled [] [] = Unit
  AllSettled (f ∷ fs) (g ∷ gs) = Settled f g × AllSettled fs gs
  AllSettled _ _ = ⊥

  abbrev IsJudgedHere : List Finding → Judged → Type 0
  IsJudgedHere fs js = IsJudged out cs archive now wi everything run jobs sightings fs js

  judged_settled :
      (fs : List Finding) (js : Judged) → IsJudgedHere fs js → AllSettled fs (findings_of js)
  judged_settled [] [] h = tt
  judged_settled [] (j ∷ js) h = absurd h
  judged_settled (f ∷ fs) [] h = absurd h
  judged_settled (f ∷ fs) ((g, none) ∷ js) h =
      (inl (ap (λ (x : Finding). x.state) h.1), judged_settled fs js h.2)
  judged_settled (f ∷ fs) ((g, some j) ∷ js) h =
      let (log, e) = h.2 in
      (
        subst (λ x. Settled f x) (sym e) (Settled-of_judge f j log h.0 h.1),
        judged_settled fs js h.3,
      )

  block_still_settled :
      (fs : List Finding) (js : Judged) (log : List Event)
      → IsJudgedHere fs js
      → AllSettled fs (findings_of js)
      → AllSettled fs (block_still now run js log).0
  unfolding block_still block_one
  block_still_settled [] [] log q h = tt
  block_still_settled [] (j ∷ js) log q h = absurd h
  block_still_settled (f ∷ fs) [] log q h = absurd h
  block_still_settled (f ∷ fs) ((g, none) ∷ js) log q h =
      (h.0, block_still_settled fs js log q.2 h.1)
  block_still_settled (f ∷ fs) ((g, some j) ∷ js) log q h =
      (blocked-Settled f g j log q.0 h.0, block_still_settled fs js _ q.3 h.1)

finish_findings :
    (succeeds : Call → Bool) (now : ℕ) (has_row : Bool) (run : ScanRun) (js : Judged) (w : World)
    {v : World}
    → finish succeeds now has_row run js w ≡ Attempt.stored v
    → (v.findings ≡ w.findings)
      ⊎ ((log : List Event) × (v.findings ≡ (block_still now run js log).0))
unfolding report_still
finish_findings succeeds now has_row run js w {v} h =
    elim (Bool-cases (issue_may_close (member_states js))) [
      | inl c ↦
          inl
            ((verify-Keeps succeeds now has_row run (member_states js) w {v = v} (ground arith)).0)
      | inr c ↦ elim (Bool-cases (is_empty (still_ids js))) [
        | inl e ↦ inl (ground arith)
        | inr e ↦ inr (
            (
              (apply_event succeeds now WorkItemEvent.rescan_shows_present (still_reason run js)
                  "scanner" w).log,
              ground arith,
            ))
      ]
    ]

-- The findings after `conclude`: those of the first pass, or of the second one.
conclude_findings :
    (succeeds : Call → Bool) (now : ℕ) (has_row : Bool) (run : ScanRun) (js : Judged) (w : World)
    {v : World}
    → conclude succeeds now has_row run js w ≡ Attempt.stored v
    → (v.findings ≡ w.findings)
      ⊎ ((log : List Event) × (v.findings ≡ (block_still now run js log).0))
unfolding conclude report_still
conclude_findings succeeds now has_row run js w {v} h =
    let invalid =
      findings-apply_event succeeds now WorkItemEvent.rescan_started (invalid_reason run js)
        "controller" w in
    let started =
      apply_event succeeds now WorkItemEvent.rescan_started (evaluated_reason run) "controller" w in
    let kept =
      findings-apply_event succeeds now WorkItemEvent.rescan_started (evaluated_reason run)
        "controller" w in
    elim (Bool-cases (any (λ (j : Judgement). is_not_applicable j.outcome) (judgements js))) [
      | inl n ↦ inl (ground (arith, invalid))
      | inr n ↦ elim (Bool-cases (is_merged w.item.state)) [
        | inl m ↦
            elim (finish_findings succeeds now has_row run js started {v = v} (ground arith)) [
              | inl e ↦ inl (e ∙ kept.0)
              | inr e ↦ inr e
            ]
        | inr m ↦ finish_findings succeeds now has_row run js w {v = v} (ground arith)
      ]
    ]

-- A scan changes only the findings of the work item, and closes them only on evidence: after
-- `_close_work_item` every finding of the database has the state that it had, or belongs to the item and is
-- not closed, or belongs to it and was closed by a run that is a closing run for it. A newly fixed one has
-- no report of its family by a scanner that judges it, a newly approved one has an approved document of the
-- run that covers it, and for a newly resolved one the item has the human's resolution.
pub close_work_item_settled :
    (out : Outside) (cs : CharClasses) (succeeds : Call → Bool) (archive : Archive) (now : ℕ)
    (has_row : Bool) (run : ScanRun) (jobs : List ScanJob) (sightings : List Sighting) (w : World)
    {v : World}
    → close_work_item out cs succeeds archive now has_row run jobs sightings w ≡ Attempt.stored v
    → AllSettled out cs archive now w.item w.findings run jobs sightings w.findings v.findings
unfolding close_work_item
close_work_item_settled out cs succeeds archive now has_row run jobs sightings w {v} h =
    elim (Checked-cases
      (judge_members out cs archive now w.item w.findings run jobs sightings w.findings w.log)) [
        | inr (fault, q) ↦ absurd (ground arith)
        | inl (r, q) ↦
            let judged =
              judge_members-IsJudged out cs archive now w.item w.findings run jobs sightings
                w.findings w.log q in
            let first =
              judged_settled out cs archive now w.item w.findings run jobs sightings w.findings r.0
                judged in
            let Here : List Finding → Type 0 =
              AllSettled out cs archive now w.item w.findings run jobs sightings w.findings in
            elim (conclude_findings succeeds now has_row run r.0 (after_judging w r.0 r.1) {v = v}
              (ground arith)) [
                | inl e ↦ subst (λ fs. Here fs) (sym e) first
                | inr (log, e) ↦
                    subst (λ fs. Here fs) (sym e)
                      (block_still_settled out cs archive now w.item w.findings run jobs sightings
                        w.findings r.0 log judged first)
              ]
      ]
