-- ===== src/Engine/Resolved.antt =====
-- Who resolves a work item (`poll_human_labels`, hardening_loop/orchestrator/engine.py).
use superset_hardening_loop.Prelude.{ℕ, String, ◌≡◌, ◌⊎◌, Bool, true, none, some, arith}
use superset_hardening_loop.Prelude.Equality.{string_eq, nat_eq}
use superset_hardening_loop.Prelude.Lists.{contains}
use superset_hardening_loop.Lifecycle.WorkItem.{WorkItemEvent}
use superset_hardening_loop.Engine.World.{Call, World, called, Attempt}
use superset_hardening_loop.Engine.Frame.{apply_event-Framed}
use superset_hardening_loop.Engine.Labels.{
  Issue, awaits_label, is_no_fix_item, is_disagreement_item, approved_label, resolved_label,
  abandon, reset_item, retry, retry_label, with_resolution, resolve, apply_labels,
}

-- The label that a human has to set for the kind of an item.
abbrev pub ResolvedBy : Issue → World → World → String → Bool → Type 0
ResolvedBy issue w v label of_kind =
    (contains issue.labels label ≡ true)
    × (of_kind ≡ true)
    × (awaits_label w.item.state ≡ true)
    × (w.item.human_resolution ≡ none)
    × (v.item.human_resolution ≡ some label)

-- A resolution is as it was, or set by a label.
abbrev pub Resolved : Issue → World → World → Type 0
Resolved issue w v =
    (v.item.human_resolution ≡ w.item.human_resolution)
    ⊎ ResolvedBy issue w v approved_label (is_no_fix_item w.item.kind)
    ⊎ ResolvedBy issue w v resolved_label (is_disagreement_item w.item.kind)

module _ (succeeds : Call → Bool) (now : ℕ) where
  abandon_keeps :
      (w : World) → (abandon succeeds now w).item.human_resolution ≡ w.item.human_resolution
  unfolding abandon
  abandon_keeps w =
      (apply_event-Framed succeeds now WorkItemEvent.human_abandoned "issue closed by human" "human"
        w).2

  retry_keeps :
      (number : ℕ) (w : World) {r : Bool × World}
      → retry succeeds now number w ≡ Attempt.stored r
      → r.1.item.human_resolution ≡ w.item.human_resolution
  unfolding retry
  retry_keeps number w {r} h =
      let removed = called (Call.remove_label number retry_label) w in
      ground (
        arith,
        apply_event-Framed succeeds now WorkItemEvent.human_retry "retry label" "human"
            (reset_item succeeds now removed),
      )

  resolve_sets :
      (label : String) (w : World)
      → (resolve succeeds now label w).item.human_resolution ≡ some label
  unfolding resolve
  resolve_sets label w =
      (apply_event-Framed succeeds now WorkItemEvent.human_resolved label "human"
        (with_resolution succeeds now label w)).2

-- A resolution is recorded only by its label on the issue: `disposition:approved` for an item without a fix,
-- `disagreement:resolved` for a scanner disagreement, and only if the item has none yet and waits for a human
-- or has failed.
pub apply_labels-Resolved :
    (succeeds : Call → Bool) (now number : ℕ) (issue : Issue) (w : World) {r : Bool × World}
    → apply_labels succeeds now number issue w ≡ Attempt.stored r
    → Resolved issue w r.1
unfolding apply_labels
apply_labels-Resolved succeeds now number issue w {r} h = ground (
  arith,
  abandon_keeps succeeds now w,
  retry_keeps succeeds now number w {r = r},
  resolve_sets succeeds now approved_label w,
  resolve_sets succeeds now resolved_label w,
)
