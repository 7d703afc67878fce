-- ===== src/Engine/Steps.antt =====
-- The steps of `_apply_pr` (hardening_loop/orchestrator/engine.py) leave an item ready for a human only with a
-- completed review of its head on record.
use superset_hardening_loop.Prelude.{
  ℕ, ◌+◌, String, ◌≡◌, refl, sym, ap, subst, ◌∙◌, inl, inr, Bool, true, false, some, List, [], ◌∷◌,
  arith,
}
use superset_hardening_loop.Prelude.Tests.{leb, Bool-cases, Option-cases}
use superset_hardening_loop.Prelude.Equality.{string_eq, ◌==◌}
use superset_hardening_loop.Prelude.Strings.{concat, show_nat, take_chars, join}
use superset_hardening_loop.Prelude.Lists.{keep_if}
use superset_hardening_loop.Domain.WorkItemState.{WorkItemState}
use superset_hardening_loop.Domain.LifecycleLevel.{LifecycleLevel}
use superset_hardening_loop.Lifecycle.WorkItem.{WorkItemEvent}
use superset_hardening_loop.Depth.Ladder.{CheckRun}
use superset_hardening_loop.Policy.{PullRequestInfo}
use superset_hardening_loop.Engine.World.{PullRequest, Call, World, called, Attempt}
use superset_hardening_loop.Engine.Apply.{apply_event}
use superset_hardening_loop.Engine.Levels.{reset_level, is_reviewed, reverify_new_head}
use superset_hardening_loop.Engine.Laws.{reverify_new_head_lem}
use superset_hardening_loop.Engine.Checks.{is_red, names_in}
use superset_hardening_loop.Engine.Approval.{Review, check_approval}
use superset_hardening_loop.Engine.Record.{record_checks, record_depth}
use superset_hardening_loop.Engine.Retry.{
  retry_or_fail, resume, first_head_red, woken, exhausted_reason, retry_text,
}
use superset_hardening_loop.Engine.Review.{Answer, Answer-cases, ReviewService}
use superset_hardening_loop.Engine.Follow.{
  Settings, is_ready, is_review_pending, is_checks_running, is_pr_open, first_head_green,
  can_turn_red, take_head, pushed, turn_red, turn_green, await_review, await_approval, record_head,
}
use superset_hardening_loop.Engine.Frame.{apply_event-Framed, apply_event-unready}
use superset_hardening_loop.Engine.Reviewed.{
  ReadyFor, raise_level-review, check_approval-review, check_review-ReadyFor,
}

reset_level-head_sha :
    (now : ℕ) (level : LifecycleLevel) (why : String) (w : World)
    → (reset_level now level why w).row.head_sha ≡ w.row.head_sha
unfolding reset_level
reset_level-head_sha now level why w = ground arith

pub reviewed_not_ready : (s : WorkItemState) → is_reviewed s ≡ false → is_ready s ≡ false
reviewed_not_ready s h = ground arith

pending_not_ready : (s : WorkItemState) → is_review_pending s ≡ true → is_ready s ≡ false
pending_not_ready s h = ground arith

pub record_depth-review :
    (now : ℕ) (head : String) (checks : List CheckRun) (w : World)
    → ((record_depth now head checks w).item.state ≡ w.item.state)
      × ((record_depth now head checks w).row.review_status ≡ w.row.review_status)
      × ((record_depth now head checks w).row.review_head_sha ≡ w.row.review_head_sha)
      × ((record_depth now head checks w).row.head_sha ≡ w.row.head_sha)
unfolding record_depth
record_depth-review now head checks w = ground arith

module _ (succeeds : Call → Bool) (now : ℕ) where
  reverify_new_head-head_sha :
      (head : String) (w : World)
      → (reverify_new_head succeeds now head w).row.head_sha ≡ w.row.head_sha
  unfolding reverify_new_head
  reverify_new_head-head_sha head w =
      let why = concat ("new head " ∷ take_chars 12 head ∷ []) in
      let told = apply_event succeeds now WorkItemEvent.new_head_pushed why "controller" w in
      let framed =
        apply_event-Framed succeeds now WorkItemEvent.new_head_pushed why "controller" w in
      ground (
        arith,
        framed,
        reset_level-head_sha now LifecycleLevel.pr_opened why told,
        reset_level-head_sha now LifecycleLevel.pr_opened why w,
      )

  -- Taking a head over: the row names it, and an item that stays ready has its review.
  pub take_head-ReadyFor :
      (pr : PullRequestInfo) (w : World)
      → pr.merged ≡ false
      → (pr.state == "closed") ≡ false
      → ReadyFor w.row.head_sha w
      → ((take_head succeeds now pr w).row.head_sha ≡ pr.head_sha)
        × ReadyFor pr.head_sha (take_head succeeds now pr w)
  unfolding take_head
  take_head-ReadyFor pr w m c h = elim (Bool-cases (pr.head_sha == w.row.head_sha)) [
    | inl e ↦
        let same : pr.head_sha ≡ w.row.head_sha =
          (string_eq.agree_iff pr.head_sha w.row.head_sha).0 e in
        let touched : World = record w { row = record w.row { updated_at = now } } in
        let kept : ReadyFor pr.head_sha touched = elim h [
          | inl u ↦ inl u
          | inr r ↦ inr (r.0, r.1 ∙ ap some (sym same), sym same)
        ] in
        rw (take_head, e) ((sym same, kept))
    | inr e ↦
        let changed =
          pushed succeeds now pr (record w { row = record w.row { updated_at = now } }) in
        let moved = reverify_new_head succeeds now pr.head_sha changed in
        let unread : is_ready moved.item.state ≡ false =
          reviewed_not_ready moved.item.state
            (reverify_new_head_lem succeeds now pr.head_sha changed).0 in
        let result : (moved.row.head_sha ≡ pr.head_sha) × ReadyFor pr.head_sha moved =
          (reverify_new_head-head_sha pr.head_sha changed, inl unread) in
        rw (take_head, e, m, c) (result)
  ]

  pub record_head-ReadyFor :
      (pr : PullRequestInfo) (checks : List CheckRun) (w : World)
      → w.row.head_sha ≡ pr.head_sha
      → ReadyFor pr.head_sha w
      → ((record_head succeeds now pr checks w).row.head_sha ≡ pr.head_sha)
        × ReadyFor pr.head_sha (record_head succeeds now pr checks w)
  unfolding record_head
  record_head-ReadyFor pr checks w a h =
      let recorded = record w { checks = record_checks now pr.head_sha checks w.checks } in
      let v = record_depth now pr.head_sha checks recorded in
      let (state, status, sha, at) = record_depth-review now pr.head_sha checks recorded in
      let kept : ReadyFor pr.head_sha v = elim h [
        | inl u ↦ inl (ap is_ready state ∙ u)
        | inr r ↦ inr (status ∙ r.0, sha ∙ r.1, at ∙ r.2)
      ] in
      elim (Bool-cases (is_pr_open v.item.state)) [
        | inr e ↦ rw (record_head, e) ((at ∙ a, kept))
        | inl e ↦
            rw (record_head, e)
              ((
                ap (λ (r : PullRequest). r.head_sha)
                      (apply_event-Framed succeeds now WorkItemEvent.checks_started pr.head_sha
                        "controller" v).0
                    ∙ at
                    ∙ a,
                inl (
                    apply_event-unready succeeds now WorkItemEvent.checks_started pr.head_sha
                      "controller" v refl),
              ))
      ]

module _ (settings : Settings) (succeeds : Call → Bool) (now : ℕ) where
  first_head_green-review :
      (pr : PullRequestInfo) (w : World)
      → ((first_head_green settings succeeds now pr w).row.head_sha ≡ w.row.head_sha)
        × ((first_head_green settings succeeds now pr w).item ≡ w.item)
  first_head_green-review pr w = ground arith

  pub turn_green-ReadyFor :
      (pr : PullRequestInfo) (w : World)
      → w.row.head_sha ≡ pr.head_sha
      → ReadyFor pr.head_sha w
      → ((turn_green settings succeeds now pr w).row.head_sha ≡ pr.head_sha)
        × ReadyFor pr.head_sha (turn_green settings succeeds now pr w)
  unfolding turn_green
  turn_green-ReadyFor pr w a h = elim (Bool-cases (is_checks_running w.item.state)) [
    | inr e ↦ rw (turn_green, e) ((a, h))
    | inl e ↦
        let first = first_head_green settings succeeds now pr w in
        let told = apply_event succeeds now WorkItemEvent.checks_green pr.head_sha "ci" first in
        let (state, status, sha, at) =
          raise_level-review now LifecycleLevel.ci_green "ci_green" told in
        rw (turn_green, e)
          ((
            at
                ∙ ap (λ (r : PullRequest). r.head_sha)
                    (apply_event-Framed succeeds now WorkItemEvent.checks_green pr.head_sha "ci"
                      first).0
                ∙ (first_head_green-review pr w).0
                ∙ a,
            inl (
                ap is_ready state
                ∙ apply_event-unready succeeds now WorkItemEvent.checks_green pr.head_sha "ci" first
                    refl),
          ))
  ]

  pub await_review-ReadyFor :
      (api : ReviewService) (pr : PullRequestInfo) (w : World)
      → w.row.head_sha ≡ pr.head_sha
      → ReadyFor pr.head_sha w
      → ReadyFor pr.head_sha (await_review settings succeeds now api pr w)
  unfolding await_review
  await_review-ReadyFor api pr w a h = elim (Bool-cases (is_review_pending w.item.state)) [
    | inr e ↦ rw (await_review, e) (h)
    | inl e ↦
        rw (await_review, e)
          (check_review-ReadyFor succeeds settings.review_timeout_minutes now api pr.url pr.head_sha
            w (pending_not_ready w.item.state e) a)
  ]

  pub await_approval-ReadyFor :
      (reviews : Answer (List Review)) (pr : PullRequestInfo) (w : World) {v : World}
      → ReadyFor pr.head_sha w
      → await_approval settings succeeds now reviews pr w ≡ Attempt.stored v
      → ReadyFor pr.head_sha v
  unfolding await_approval
  await_approval-ReadyFor reviews pr w {v} h stored = elim (Bool-cases (is_ready w.item.state)) [
    | inr e ↦ inl (ground (arith))
    | inl e ↦ elim (Answer-cases reviews) [
      | inr (text, q) ↦ absurd (ground arith)
      | inl (rs, q) ↦
          let approved = check_approval settings.approver_logins now pr.head_sha rs w in
          let (state, status, sha, at) =
            check_approval-review settings.approver_logins now pr.head_sha rs w in
          let same : v ≡ approved = ground arith in
          let kept : ReadyFor pr.head_sha approved = elim h [
            | inl u ↦ inl (ap is_ready state ∙ u)
            | inr r ↦ inr (status ∙ r.0, sha ∙ r.1, at ∙ r.2)
          ] in
          subst (λ x. ReadyFor pr.head_sha x) (sym same) kept
    ]
  ]

  resume-unready :
      (head : String) (failed : List CheckRun) (w : World) {v : World}
      → resume succeeds settings.retries_per_work_item now head failed w ≡ Attempt.stored v
      → is_ready v.item.state ≡ false
  unfolding resume
  resume-unready head failed w {v} h =
      let sent = woken succeeds settings.retries_per_work_item now w in
      let why = concat ("retry " ∷ show_nat w.item.retries_used ∷ []) in
      ground (
        arith,
        apply_event-unready succeeds now WorkItemEvent.retry_sent why "controller" sent refl,
      )

  retry_or_fail-unready :
      (url head : String) (checks : List CheckRun) (w : World) {v : World}
      → retry_or_fail succeeds settings.retries_per_work_item now url head checks w
        ≡ Attempt.stored v
      → is_ready v.item.state ≡ false
  unfolding retry_or_fail
  retry_or_fail-unready url head checks w {v} h =
      let limit = settings.retries_per_work_item in
      let failed = keep_if is_red checks in
      let w1 = first_head_red succeeds limit now head w in
      let why = exhausted_reason succeeds limit now w1.item.retries_used failed in
      let ended =
        apply_event-unready succeeds now WorkItemEvent.retries_exhausted why "controller" w1 refl in
      elim (Bool-cases (leb limit w1.item.retries_used)) [
        | inl e ↦ ground (arith, ended)
        | inr e ↦ elim (Option-cases w1.item.active_session_id) [
          | inl q ↦ ground (arith, ended)
          | inr (sid, q) ↦
              let w2 : World = record w1 {
                item = record w1.item { retries_used = w1.item.retries_used + 1 };
              } in
              let message =
                Call.send_message sid
                  (retry_text succeeds limit now url head w2.item.retries_used failed) in
              elim (Bool-cases (succeeds message)) [
                | inr f ↦ absurd (ground arith)
                | inl f ↦ resume-unready head failed (called message w2) {v = v} (ground arith)
              ]
        ]
      ]

  pub turn_red-unready :
      (pr : PullRequestInfo) (checks : List CheckRun) (w : World) {v : World}
      → turn_red settings succeeds now pr checks w ≡ Attempt.stored v
      → is_ready v.item.state ≡ false
  unfolding turn_red
  turn_red-unready pr checks w {v} h = elim (Bool-cases (can_turn_red w.item.state)) [
    | inr e ↦ ground arith
    | inl e ↦
        let red =
          apply_event succeeds now WorkItemEvent.checks_red
            (join ", " (names_in (keep_if is_red checks))) "ci" w in
        retry_or_fail-unready pr.url pr.head_sha checks red {v = v} (ground arith)
  ]
