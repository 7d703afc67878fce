-- ===== src/Engine/Drift.antt =====
-- `_drift` (hardening_loop/orchestrator/engine.py): findings that a run does not show although nobody has
-- worked on them.
use superset_hardening_loop.Prelude.{
  ℕ, Bool, true, false, ◌&&◌, not, Option, none, some, List, [], ◌∷◌, ◌++◌, map,
}
use superset_hardening_loop.Prelude.Tests.{if◌then◌else◌}
use superset_hardening_loop.Prelude.Equality.{nat_eq, same_option}
use superset_hardening_loop.Prelude.Lists.{contains}
use superset_hardening_loop.Prelude.Strings.{concat}
use superset_hardening_loop.Domain.WorkItemState.{WorkItemState}
use superset_hardening_loop.Domain.FindingState.{FindingState}
use superset_hardening_loop.Models.Scan.{ScanRun, ScanJob, Sighting}
use superset_hardening_loop.Models.Finding.{Finding}
use superset_hardening_loop.Lifecycle.WorkItem.{WorkItemEvent}
use superset_hardening_loop.Lifecycle.Finding.{FindingEvent}
use superset_hardening_loop.Vex.{CharClasses}
use superset_hardening_loop.Closer.Validity.{Outside, validate_closing_run}
use superset_hardening_loop.Closer.Decide.{issue_may_close}
use superset_hardening_loop.Engine.World.{WorkItem, Call, World, Outcome, Attempt, ◌>>=◌}
use superset_hardening_loop.Engine.Apply.{apply_event, apply_finding_event}
use superset_hardening_loop.Engine.Archive.{Archive, later_run_saw, is_present_family}
use superset_hardening_loop.Engine.Judging.{count_one, finding_id}
use superset_hardening_loop.Engine.Closing.{perform}
use superset_hardening_loop.Engine.Database.{Entry, Ledger, item_with_id}

abbrev waits_for_session : WorkItemState → Bool
waits_for_session WorkItemState.queued = true
waits_for_session WorkItemState.issue_open = true
waits_for_session _ = false

abbrev is_grouped : FindingState → Bool
is_grouped FindingState.grouped = true
is_grouped _ = false

-- The states that `_drift` selects.
abbrev pub drifts : FindingState → Bool
drifts FindingState.opened = true
drifts FindingState.unclassified = true
drifts FindingState.grouped = true
drifts _ = false

module _ (out : Outside) (cs : CharClasses) (succeeds : Call → Bool) (archive : Archive) (now : ℕ)
    (entries : List Entry) (everything : List Finding) (run : ScanRun) (jobs : List ScanJob)
    (sightings : List Sighting) where
  -- The item of a grouped candidate: `some none` if there is none, `none` to skip the candidate.
  abbrev drift_item : Finding → Option (Option ℕ)
  drift_item f =
      if is_grouped f.state
      then elim f.work_item_id [
        | none ↦ some none
        | some i ↦ elim (item_with_id i entries) [
          | none ↦ none
          | some wi ↦ if waits_for_session wi.state then some (some i) else none
        ]
      ]
      else some none

  -- Whether `_drift` looks at the finding at all.
  abbrev is_candidate : Finding → Bool
  is_candidate f =
      drifts f.state
      && elim f.last_seen_run_id [ none ↦ false | some i ↦ not (same_option run.id (some i)) ]
      && not (is_present_family everything sightings f)

  abbrev add_touched : Option ℕ → List ℕ → List ℕ
  add_touched none touched = touched
  add_touched (some i) touched = if contains touched i then touched else touched ++ i ∷ []

  -- The first loop of `_drift`, with the work items it has touched.
  unfoldable pub drift_one : Finding → Ledger → List ℕ → Finding × Ledger × List ℕ
  drift_one f l touched =
      let (done, t) =
        apply_finding_event now (finding_id f) FindingEvent.closing_absent
          (concat ("absent in run " ∷ run.external_run_id ∷ " (no remediation)" ∷ [])) "scanner"
          run.id (record { finding = f; log = l.log }) in
      if not (is_candidate f) then (f, l, touched) else elim (drift_item f) [
        | none ↦ (f, l, touched)
        | some i ↦
            if (validate_closing_run out run jobs f none false (later_run_saw archive run f)).valid
            then (
              t.finding,
              record l {
                log = t.log;
                counts = if done then count_one "fixed_by_drift" l.counts else l.counts;
              },
              add_touched i touched,
            )
            else (f, l, add_touched i touched)
      ]

  unfoldable pub drift : List Finding → Ledger → List ℕ → List Finding × Ledger × List ℕ
  drift [] l touched = ([], l, touched)
  drift (f ∷ fs) l touched =
      let (g, l1, touched1) = drift_one f l touched in
      let (gs, l2, touched2) = drift fs l1 touched1 in (g ∷ gs, l2, touched2)

abbrev members_of : WorkItem → List Finding → List Finding
members_of wi [] = []
members_of wi (f ∷ fs) =
    if same_option f.work_item_id (some wi.id) then f ∷ members_of wi fs else members_of wi fs

abbrev pub states_in : WorkItem → List Finding → List FindingState
states_in wi fs = map (λ (f : Finding). f.state) (members_of wi fs)

module _ (succeeds : Call → Bool) (now : ℕ) (run : ScanRun) where
  -- One touched item of `_drift`.
  unfoldable pub supersede : World → Outcome
  supersede w =
      let after =
        apply_event succeeds now WorkItemEvent.superseded
          (concat ("all members absent in run " ∷ run.external_run_id ∷ [])) "controller" w in
      if not (issue_may_close (states_in w.item w.findings))
      then Attempt.stored w
      else elim after.item.issue_number [
        | none ↦ Attempt.stored after
        | some n ↦
            perform succeeds now
              (Call.comment_issue n (
                concat (
                  "All findings absent in run `" ∷ run.external_run_id
                  ∷ "` before any session ran; closing." ∷ [])))
              after
            >>= λ v. perform succeeds now (Call.close_issue n) v
      ]
