-- ===== src/Engine/Labels.antt =====
-- The body of `poll_human_labels` (hardening_loop/orchestrator/engine.py): the labels and the closure of an
-- issue, acted on for the work item that waits for a human there. Whether the issue could be fetched is
-- decided before.
use superset_hardening_loop.Prelude.{
  ℕ, String, Bool, true, false, ◌&&◌, not, none, some, List, [], ◌∷◌,
}
use superset_hardening_loop.Prelude.Tests.{is_some, if◌then◌else◌}
use superset_hardening_loop.Prelude.Equality.{string_eq, nat_eq, same_option, ◌==◌}
use superset_hardening_loop.Prelude.Lists.{contains}
use superset_hardening_loop.Domain.WorkItemState.{WorkItemState}
use superset_hardening_loop.Domain.Kind.{Kind}
use superset_hardening_loop.Models.Finding.{Finding}
use superset_hardening_loop.Lifecycle.WorkItem.{WorkItemEvent}
use superset_hardening_loop.Lifecycle.Finding.{FindingEvent}
use superset_hardening_loop.Engine.World.{WorkItem, Event, Call, World, Attempt, ◌>>=◌}
use superset_hardening_loop.Engine.Apply.{apply_event, Traced, apply_finding_event}
use superset_hardening_loop.Engine.Judging.{is_member, finding_id}
use superset_hardening_loop.Engine.Closing.{perform}

-- What is read of an `Issue` (hardening_loop/github/protocol.py).
pub record Issue : Type 0 where
  pub state : String
  pub labels : List String

abbrev pub is_label_state : WorkItemState → Bool
is_label_state WorkItemState.needs_human = true
is_label_state WorkItemState.failed = true
is_label_state WorkItemState.issue_open = true
is_label_state WorkItemState.ready_for_human = true
is_label_state _ = false

-- The states in which a label decides.
abbrev pub awaits_label : WorkItemState → Bool
awaits_label WorkItemState.needs_human = true
awaits_label WorkItemState.failed = true
awaits_label _ = false

abbrev pub is_no_fix_item : Kind → Bool
is_no_fix_item Kind.no_fix_reachability = true
is_no_fix_item _ = false

abbrev pub is_disagreement_item : Kind → Bool
is_disagreement_item Kind.scanner_disagreement = true
is_disagreement_item _ = false

abbrev pub retry_label : String
retry_label = "retry"

abbrev pub approved_label : String
approved_label = "disposition:approved"

abbrev pub resolved_label : String
resolved_label = "disagreement:resolved"

-- `_finding(..., FindingEvent.human_blocked, "issue closed", ...)` for every member.
unfoldable pub block_members : ℕ → WorkItem → List Finding → List Event → List Finding × List Event
block_members now wi [] log = ([], log)
block_members now wi (f ∷ fs) log =
    let t : Traced =
      if is_member wi f
      then (apply_finding_event now (finding_id f) FindingEvent.human_blocked "issue closed" "human"
          none (record { finding = f; log = log })).1
      else record { finding = f; log = log } in
    let rest = block_members now wi fs t.log in (t.finding ∷ rest.0, rest.1)

module _ (succeeds : Call → Bool) (now : ℕ) where
  unfoldable pub abandon : World → World
  abandon w =
      let v =
        apply_event succeeds now WorkItemEvent.human_abandoned "issue closed by human" "human" w in
      let found = block_members now v.item v.findings v.log in
      record v { findings = found.0; log = found.1 }

  -- The item starts afresh.
  abbrev pub reset_item : World → World
  reset_item w = record w {
    item = record w.item { retries_used = 0; active_session_id = none; blocked_reason = none };
  }

  unfoldable pub retry : ℕ → World → Attempt (Bool × World)
  retry number w = perform succeeds now (Call.remove_label number retry_label) w >>= λ v.
      Attempt.stored (
        true,
        apply_event succeeds now WorkItemEvent.human_retry "retry label" "human" (reset_item v),
      )

  abbrev pub with_resolution : String → World → World
  with_resolution label w = record w { item = record w.item { human_resolution = some label } }

  unfoldable pub resolve : String → World → World
  resolve label w =
      apply_event succeeds now WorkItemEvent.human_resolved label "human" (with_resolution label w)

  -- Whether a label decides, which it does once.
  abbrev pub decides : String → Bool → Issue → World → Bool
  decides label of_kind issue w =
      contains issue.labels label && of_kind && not (is_some w.item.human_resolution)

  -- Whether something was done, and the world afterwards.
  unfoldable pub apply_labels : ℕ → Issue → World → Attempt (Bool × World)
  apply_labels number issue w =
      if not (is_label_state w.item.state && same_option w.item.issue_number (some number))
      then Attempt.stored (false, w)
      else if issue.state == "closed"
      then Attempt.stored (true, abandon w)
      else if not (awaits_label w.item.state)
      then Attempt.stored (false, w)
      else if contains issue.labels retry_label
      then retry number w
      else if decides approved_label (is_no_fix_item w.item.kind) issue w
      then Attempt.stored (true, resolve approved_label w)
      else if decides resolved_label (is_disagreement_item w.item.kind) issue w
      then Attempt.stored (true, resolve resolved_label w)
      else Attempt.stored (false, w)
