-- ===== src/Engine/Ready.antt =====
-- What `_apply_pr` (hardening_loop/orchestrator/engine.py) asks for before an item is ready for a human.
use superset_hardening_loop.Prelude.{
  ℕ, ◌≡◌, refl, sym, ap, subst, ◌∙◌, inl, inr, ◌⊎◌, Bool, true, false, some, List, arith,
}
use superset_hardening_loop.Prelude.Tests.{get_or, Bool-cases, Option-cases}
use superset_hardening_loop.Prelude.Equality.{string_eq, ◌==◌}
use superset_hardening_loop.Domain.WorkItemState.{WorkItemState}
use superset_hardening_loop.Domain.LifecycleLevel.{LifecycleLevel}
use superset_hardening_loop.Lifecycle.WorkItem.{WorkItemEvent}
use superset_hardening_loop.Depth.Ladder.{CheckRun}
use superset_hardening_loop.Policy.{PullRequestInfo}
use superset_hardening_loop.Vex.{CharClasses}
use superset_hardening_loop.Closer.Validity.{Outside}
use superset_hardening_loop.Engine.World.{Call, World, Attempt}
use superset_hardening_loop.Engine.Apply.{apply_event, is_needs_human}
use superset_hardening_loop.Engine.Levels.{reverify_new_head}
use superset_hardening_loop.Engine.Laws.{reverify_new_head_lem}
use superset_hardening_loop.Engine.Checks.{Verdict, checks_verdict}
use superset_hardening_loop.Engine.Approval.{Review}
use superset_hardening_loop.Engine.Archive.{Archive}
use superset_hardening_loop.Engine.Reviewed.{HasReview, ReadyFor, raise_level-review}
use superset_hardening_loop.Engine.Steps.{
  take_head-ReadyFor, record_head-ReadyFor, turn_green-ReadyFor, await_review-ReadyFor,
  await_approval-ReadyFor, turn_red-unready, reviewed_not_ready, record_depth-review,
}
use superset_hardening_loop.Engine.Record.{record_checks, record_depth}
use superset_hardening_loop.Engine.Review.{Answer, ReviewService}
use superset_hardening_loop.Engine.Follow.{
  Settings, close_from_applied_runs, applied_runs_since, take_merge, merged_item,
  blocked_before_merge, may_be_merged, closed_unmerged, apply_pr, is_ready, is_pr_open, take_head,
  pushed, turn_green, await_review, record_head, follow_open,
}
use superset_hardening_loop.Engine.Frame.{apply_event-unready}
use superset_hardening_loop.Engine.Unready.{close_from_runs-unready}

may_not_be_merged : (s : WorkItemState) → may_be_merged s ≡ false → is_ready s ≡ false
may_not_be_merged s h = ground arith

needs_human_unready : (s : WorkItemState) → is_needs_human s ≡ true → is_ready s ≡ false
needs_human_unready s h = ground arith

Verdict-cases : (v : Verdict) → (v ≡ Verdict.running) ⊎ (v ≡ Verdict.red) ⊎ (v ≡ Verdict.green)
Verdict-cases Verdict.running = inl refl
Verdict-cases Verdict.red = inr (inl refl)
Verdict-cases Verdict.green = inr (inr refl)

module _ (succeeds : Call → Bool) (now : ℕ) where
  merged_item-unready :
      (pr : PullRequestInfo) (w : World)
      → is_ready (merged_item succeeds now pr w).item.state ≡ false
  unfolding merged_item
  merged_item-unready pr w =
      let sha = get_or pr.merge_commit_sha "" in
      let told = apply_event succeeds now WorkItemEvent.human_merged sha "human" w in
      ap is_ready (raise_level-review now LifecycleLevel.merged "merged" told).0
      ∙ apply_event-unready succeeds now WorkItemEvent.human_merged sha "human" w refl

  closed_unmerged-unready :
      (pr : PullRequestInfo) (w : World)
      → is_ready (closed_unmerged succeeds now pr w).item.state ≡ false
  unfolding closed_unmerged
  closed_unmerged-unready pr w =
      let closed : World = record w { row = record w.row { state = "closed" } } in
      ground (
        arith,
        needs_human_unready w.item.state,
        apply_event-unready succeeds now WorkItemEvent.pr_closed_unmerged pr.url "human" closed
            refl,
      )

  take_head-unready :
      (pr : PullRequestInfo) (w : World)
      → pr.merged ≡ false
      → (pr.state == "closed") ≡ false
      → is_ready w.item.state ≡ false
      → is_ready (take_head succeeds now pr w).item.state ≡ false
  unfolding take_head
  take_head-unready pr w m c h =
      let touched : World = record w { row = record w.row { updated_at = now } } in
      let changed = pushed succeeds now pr touched in
      let moved = reverify_new_head succeeds now pr.head_sha changed in
      let unready =
        reviewed_not_ready moved.item.state
          (reverify_new_head_lem succeeds now pr.head_sha changed).0 in
      elim (Bool-cases (pr.head_sha == w.row.head_sha)) [
        | inl e ↦ rw (take_head, e) (h)
        | inr e ↦ rw (take_head, e, m, c) (unready)
      ]

  record_head-unready :
      (pr : PullRequestInfo) (checks : List CheckRun) (w : World)
      → is_ready w.item.state ≡ false
      → is_ready (record_head succeeds now pr checks w).item.state ≡ false
  unfolding record_head
  record_head-unready pr checks w h =
      let recorded : World = record w { checks = record_checks now pr.head_sha checks w.checks } in
      let v = record_depth now pr.head_sha checks recorded in
      let same = (record_depth-review now pr.head_sha checks recorded).0 in
      elim (Bool-cases (is_pr_open v.item.state)) [
        | inr e ↦ rw (record_head, e) (ap is_ready same ∙ h)
        | inl e ↦
            rw (record_head, e)
              (apply_event-unready succeeds now WorkItemEvent.checks_started pr.head_sha
                "controller" v refl)
      ]

module _ (out : Outside) (cs : CharClasses) (archive : Archive) (settings : Settings)
    (succeeds : Call → Bool) (now : ℕ) where
  take_merge-unready :
      (pr : PullRequestInfo) (w : World) {v : World}
      → take_merge out cs archive settings succeeds now pr w ≡ Attempt.stored v
      → is_ready v.item.state ≡ false
  unfolding take_merge close_from_applied_runs
  take_merge-unready pr w {v} h =
      let b = blocked_before_merge succeeds now pr w in
      let begun = merged_item succeeds now pr b in
      let unready = merged_item-unready succeeds now pr b in
      elim (Bool-cases (may_be_merged b.item.state)) [
        | inr e ↦ ground (arith, may_not_be_merged b.item.state e)
        | inl e ↦ elim (Option-cases begun.item.merged_at) [
          | inl q ↦ ground (arith, unready)
          | inr (t, q) ↦
              close_from_runs-unready out cs succeeds archive now
                (applied_runs_since t archive.runs) begun {v = v} unready (ground arith)
        ]
      ]

  follow_open-ReadyFor :
      (api : ReviewService) (reviews : Answer (List Review)) (pr : PullRequestInfo)
      (checks : List CheckRun) (w : World) {v : World}
      → w.row.head_sha ≡ pr.head_sha
      → ReadyFor pr.head_sha w
      → follow_open settings succeeds now api reviews pr checks w ≡ Attempt.stored v
      → ReadyFor pr.head_sha v
  unfolding follow_open
  follow_open-ReadyFor api reviews pr checks w {v} a r h =
      let recorded = record_head succeeds now pr checks w in
      let (at, kept) = record_head-ReadyFor succeeds now pr checks w a r in
      elim (Verdict-cases (checks_verdict settings.required_check_names checks)) [
        | inl e ↦
            let same : v ≡ recorded = ground arith in
            subst (λ x. ReadyFor pr.head_sha x) (sym same) kept
        | inr (inl e) ↦
            inl (turn_red-unready settings succeeds now pr checks recorded {v = v} (ground arith))
        | inr (inr e) ↦
            let green = turn_green settings succeeds now pr recorded in
            let (there, on) = turn_green-ReadyFor settings succeeds now pr recorded at kept in
            let reviewed = await_review-ReadyFor settings succeeds now api pr green there on in
            await_approval-ReadyFor settings succeeds now reviews pr
              (await_review settings succeeds now api pr green) {v = v} reviewed (ground arith)
      ]

  follow_open-green :
      (api : ReviewService) (reviews : Answer (List Review)) (pr : PullRequestInfo)
      (checks : List CheckRun) (w : World) {v : World}
      → is_ready w.item.state ≡ false
      → follow_open settings succeeds now api reviews pr checks w ≡ Attempt.stored v
      → is_ready v.item.state ≡ true
      → checks_verdict settings.required_check_names checks ≡ Verdict.green
  unfolding follow_open
  follow_open-green api reviews pr checks w {v} u h e =
      let recorded = record_head succeeds now pr checks w in
      let unready = record_head-unready succeeds now pr checks w u in
      elim (Verdict-cases (checks_verdict settings.required_check_names checks)) [
        | inl q ↦ absurd (ground (arith, unready))
        | inr (inl q) ↦ absurd (
            ground (
              arith,
              turn_red-unready settings succeeds now pr checks recorded {v = v} (ground arith),
            ))
        | inr (inr q) ↦ q
      ]

  -- The invariant: an item that is ready for a human has a completed review of its head on record. It
  -- holds after what GitHub and Devin say is taken over, whatever that is and whichever calls fail.
  pub apply_pr-ReadyFor :
      (api : ReviewService) (reviews : Answer (List Review)) (pr : PullRequestInfo)
      (checks : List CheckRun) (w : World) {v : World}
      → ReadyFor w.row.head_sha w
      → apply_pr out cs archive settings succeeds now api reviews pr checks w ≡ Attempt.stored v
      → ReadyFor v.row.head_sha v
  unfolding apply_pr
  apply_pr-ReadyFor api reviews pr checks w {v} r h =
      let taken = take_head succeeds now pr w in
      elim (Bool-cases pr.merged) [
        | inl m ↦ inl (take_merge-unready pr taken {v = v} (ground arith))
        | inr m ↦ elim (Bool-cases (pr.state == "closed")) [
          | inl c ↦ inl (ground (arith, closed_unmerged-unready succeeds now pr taken))
          | inr c ↦ elim (Bool-cases (is_needs_human taken.item.state)) [
            | inl n ↦ inl (ground (arith, needs_human_unready taken.item.state n))
            | inr n ↦
                let (at, kept) = take_head-ReadyFor succeeds now pr w m c r in
                elim (follow_open-ReadyFor api reviews pr checks taken {v = v} at kept
                  (ground arith)) [
                    | inl x ↦ inl x
                    | inr x ↦ inr (x.0, x.1 ∙ ap some (sym x.2), refl)
                  ]
          ]
        ]
      ]

  -- An item becomes ready for a human only while its pull request is open and neither merged nor closed,
  -- with green checks, and with a completed review of exactly the head that GitHub reports.
  pub apply_pr_ready :
      (api : ReviewService) (reviews : Answer (List Review)) (pr : PullRequestInfo)
      (checks : List CheckRun) (w : World) {v : World}
      → apply_pr out cs archive settings succeeds now api reviews pr checks w ≡ Attempt.stored v
      → is_ready w.item.state ≡ false
      → is_ready v.item.state ≡ true
      → (pr.merged ≡ false)
        × ((pr.state == "closed") ≡ false)
        × (checks_verdict settings.required_check_names checks ≡ Verdict.green)
        × HasReview pr.head_sha v
  unfolding apply_pr
  apply_pr_ready api reviews pr checks w {v} h u e =
      let taken = take_head succeeds now pr w in
      elim (Bool-cases pr.merged) [
        | inl m ↦ absurd (ground (arith, take_merge-unready pr taken {v = v} (ground arith)))
        | inr m ↦ elim (Bool-cases (pr.state == "closed")) [
          | inl c ↦ absurd (ground (arith, closed_unmerged-unready succeeds now pr taken))
          | inr c ↦
              let unready = take_head-unready succeeds now pr w m c u in
              elim (Bool-cases (is_needs_human taken.item.state)) [
                | inl n ↦ absurd (ground (arith, unready))
                | inr n ↦
                    let stored : follow_open settings succeeds now api reviews pr checks taken
                        ≡ Attempt.stored v =
                      ground arith in
                    let (at, kept) = take_head-ReadyFor succeeds now pr w m c (inl u) in
                    let green =
                      follow_open-green api reviews pr checks taken {v = v} unready stored e in
                    elim (follow_open-ReadyFor api reviews pr checks taken {v = v} at kept stored) [
                      | inl x ↦ absurd (ground arith)
                      | inr x ↦ (m, c, green, x)
                    ]
              ]
        ]
      ]
