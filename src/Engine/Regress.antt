-- ===== src/Engine/Regress.antt =====
-- `_regressions` (hardening_loop/orchestrator/engine.py): closed findings that a run shows again.
use superset_hardening_loop.Prelude.{
  ℕ, String, Bool, true, false, ◌&&◌, not, Option, none, some, List, [], ◌∷◌, ◌++◌,
}
use superset_hardening_loop.Prelude.Tests.{if◌then◌else◌}
use superset_hardening_loop.Prelude.Equality.{nat_eq, ◌==◌}
use superset_hardening_loop.Prelude.Lists.{all, is_empty}
use superset_hardening_loop.Prelude.Dict.{values}
use superset_hardening_loop.Prelude.Strings.{concat, take_chars}
use superset_hardening_loop.Domain.FindingState.{FindingState, in_closing}
use superset_hardening_loop.Models.Scan.{ScanRun, ScanJob, Sighting}
use superset_hardening_loop.Models.Finding.{Finding}
use superset_hardening_loop.Lifecycle.Finding.{FindingEvent}
use superset_hardening_loop.Vex.{CharClasses}
use superset_hardening_loop.Closer.Validity.{Outside, validate_closing_run}
use superset_hardening_loop.Closer.Decide.{SightingView, sightings_for}
use superset_hardening_loop.Engine.World.{WorkItem, Call, Attempt, ◌>>=◌}
use superset_hardening_loop.Engine.Apply.{apply_finding_event}
use superset_hardening_loop.Engine.Archive.{
  Archive, run_with_id, later_run_saw, family_ids, is_present_family,
}
use superset_hardening_loop.Engine.Judging.{count_one, finding_id}
use superset_hardening_loop.Engine.Database.{Entry, Ledger, item_with_id}

abbrev is_approved_disposition : FindingState → Bool
is_approved_disposition FindingState.approved_disposition = true
is_approved_disposition _ = false

-- `db.get(WorkItem, f.work_item_id) if f.work_item_id else None`
abbrev pub owner : Finding → List Entry → Option WorkItem
owner f es = elim f.work_item_id [
  | none ↦ none
  | some i ↦ if i == 0 then none else item_with_id i es
]

-- `all(not v for v in view.policy_present.values()) and view.policy_present`
abbrev pub still_suppressed : SightingView → Bool
still_suppressed view =
    all (λ v. not v) (values view.policy_present) && not (is_empty view.policy_present)

module _ (out : Outside) (cs : CharClasses) (succeeds : Call → Bool) (archive : Archive) (now : ℕ)
    (entries : List Entry) (everything : List Finding) (run : ScanRun) (jobs : List ScanJob)
    (sightings : List Sighting) where
  abbrev pub call : Call → Ledger → Attempt Ledger
  call c l =
      if succeeds c
      then Attempt.stored (record l { calls = l.calls ++ c ∷ [] })
      else Attempt.rolled_back l.calls

  -- `closing_run.source_sha if closing_run else None`
  abbrev closing_sha : Finding → Option String
  closing_sha f = elim f.closed_by_run_id [
    | none ↦ none
    | some i ↦
        if i == 0
        then none
        else elim (run_with_id i archive.runs) [ none ↦ none | some r ↦ some r.source_sha ]
  ]

  -- Whether the loop of `_regressions` reaches the event for this finding.
  unfoldable pub regresses : Finding → Bool
  regresses f =
      in_closing f.state
      && is_present_family everything sightings f
      && (validate_closing_run out run jobs f (closing_sha f) false
          (later_run_saw archive run f)).valid
      && not (
          is_approved_disposition f.state
          && still_suppressed (sightings_for f run sightings (family_ids everything f)))

  abbrev pub reopen : WorkItem → Finding → Ledger → Attempt Ledger
  reopen wi f l = elim wi.issue_number [
    | none ↦ Attempt.stored l
    | some n ↦ call (Call.reopen_issue n) l >>= λ m.
        call
          (Call.comment_issue n (
            concat (
              "Regression: "
              ∷ f.vuln_id
              ∷ " reappeared in run `"
              ∷ run.external_run_id
              ∷ "` @ `"
              ∷ take_chars 12 run.source_sha
              ∷ "`. A new work item will be created."
              ∷ [])))
          m
  ]

  -- One round of the loop of `_regressions`.
  unfoldable pub regress_one : Finding → Ledger → Attempt (Finding × Ledger)
  regress_one f l =
      let (done, t) =
        apply_finding_event now (finding_id f) FindingEvent.reappeared
          (concat ("present again in run " ∷ run.external_run_id ∷ [])) "scanner" run.id
          (record { finding = f; log = l.log }) in
      let logged = record l { log = t.log } in
      let counted = record logged { counts = count_one "regression" l.counts } in
      let freed = record t.finding { work_item_id = none } in
      if not (regresses f)
      then Attempt.stored (f, l)
      else if not done
      then Attempt.stored (t.finding, logged)
      else elim (owner f entries) [
        | none ↦ Attempt.stored (freed, counted)
        | some wi ↦ reopen wi f counted >>= λ m. Attempt.stored (freed, m)
      ]

  unfoldable pub regressions : List Finding → Ledger → Attempt (List Finding × Ledger)
  regressions [] l = Attempt.stored ([], l)
  regressions (f ∷ fs) l = elim (regress_one f l) [
    | Attempt.rolled_back cs ↦ Attempt.rolled_back cs
    | Attempt.stored r ↦ elim (regressions fs r.1) [
      | Attempt.rolled_back cs ↦ Attempt.rolled_back cs
      | Attempt.stored rest ↦ Attempt.stored (r.0 ∷ rest.0, rest.1)
    ]
  ]
