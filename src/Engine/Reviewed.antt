-- ===== src/Engine/Reviewed.antt =====
-- A completed review of a head on record (`_check_review`, hardening_loop/orchestrator/engine.py): what
-- makes an item ready for a human puts it there.
use superset_hardening_loop.Prelude.{
  ℕ, String, ◌≡◌, refl, ap, ◌∙◌, inl, inr, ◌⊎◌, Bool, true, false, ◌||◌, not, some, List, [], ◌∷◌,
  arith,
}
use superset_hardening_loop.Prelude.Tests.{Bool-cases, Option-cases}
use superset_hardening_loop.Prelude.Equality.{string_eq, ◌==◌}
use superset_hardening_loop.Prelude.Strings.{concat, show_nat, take_chars}
use superset_hardening_loop.Domain.LifecycleLevel.{LifecycleLevel}
use superset_hardening_loop.Lifecycle.WorkItem.{WorkItemEvent}
use superset_hardening_loop.Engine.World.{PullRequest, Call, World, called}
use superset_hardening_loop.Engine.Apply.{apply_event}
use superset_hardening_loop.Engine.Levels.{raise_level}
use superset_hardening_loop.Engine.Approval.{Review, check_approval}
use superset_hardening_loop.Engine.Review.{
  Answer-cases, ReviewService, ReviewSnapshot, ReviewStatus, check_review, observe_review,
  review_timeout, start_review, review_value, with_review, review_id_of, triggered, not_observed,
  is_terminal, is_errored, is_review_completed, review_retriggered,
}
use superset_hardening_loop.Engine.Follow.{is_ready}
use superset_hardening_loop.Engine.Frame.{apply_event-Framed, apply_event-unready}

-- A completed review of a head is on record.
abbrev pub HasReview : String → World → Type 0
HasReview head w =
    (w.row.review_status ≡ some "completed")
    × (w.row.review_head_sha ≡ some head)
    × (w.row.head_sha ≡ head)

-- Not ready for a human, or with a completed review of a head.
abbrev pub ReadyFor : String → World → Type 0
ReadyFor head w = (is_ready w.item.state ≡ false) ⊎ HasReview head w

pub raise_level-review :
    (now : ℕ) (level : LifecycleLevel) (why : String) (w : World)
    → ((raise_level now level why w).item.state ≡ w.item.state)
      × ((raise_level now level why w).row.review_status ≡ w.row.review_status)
      × ((raise_level now level why w).row.review_head_sha ≡ w.row.review_head_sha)
      × ((raise_level now level why w).row.head_sha ≡ w.row.head_sha)
unfolding raise_level
raise_level-review now level why w = ground arith

pub check_approval-review :
    (approvers : List String) (now : ℕ) (head : String) (rs : List Review) (w : World)
    → ((check_approval approvers now head rs w).item.state ≡ w.item.state)
      × ((check_approval approvers now head rs w).row.review_status ≡ w.row.review_status)
      × ((check_approval approvers now head rs w).row.review_head_sha ≡ w.row.review_head_sha)
      × ((check_approval approvers now head rs w).row.head_sha ≡ w.row.head_sha)
unfolding check_approval
check_approval-review approvers now head [] w = (refl, refl, refl, refl)
check_approval-review approvers now head (r ∷ rs) w =
    let why = concat ("approved_by:" ∷ r.author ∷ []) in
    let approved : World = record w { row = record w.row { approved_by = some r.author } } in
    ground (
      arith,
      check_approval-review approvers now head rs w,
      raise_level-review now LifecycleLevel.human_approved why approved,
    )

completed_value : (s : ReviewStatus) → is_review_completed s ≡ true → review_value s ≡ "completed"
completed_value s h = ground arith

module _ (succeeds : Call → Bool) (minutes now : ℕ) where
  review_timeout-unready :
      (head why : String) (w : World)
      → is_ready w.item.state ≡ false
      → is_ready (review_timeout succeeds minutes now head why w).item.state ≡ false
  unfolding review_timeout
  review_timeout-unready head why w h =
      let shown =
        concat (why ∷ " after " ∷ show_nat minutes ∷ " min on " ∷ take_chars 12 head ∷ []) in
      ground (
        arith,
        apply_event-unready succeeds now WorkItemEvent.review_not_observed shown "controller" w
            refl,
      )

  observe_review-ReadyFor :
      (head : String) (s : ReviewSnapshot) (w : World)
      → is_ready w.item.state ≡ false
      → w.row.head_sha ≡ head
      → ReadyFor head (observe_review succeeds minutes now head s w)
  unfolding observe_review
  observe_review-ReadyFor head s w h a = elim (Bool-cases (s.commit_sha == head)) [
    | inr e ↦
        let why =
          concat ("devin review names different commit " ∷ take_chars 12 s.commit_sha ∷ []) in
        inl (ground (arith, review_timeout-unready head why w h))
    | inl e ↦ elim (Bool-cases (is_review_completed s.status)) [
      | inl c ↦
          let named = with_review succeeds minutes now s w in
          let id = review_id_of succeeds minutes now s in
          let told = apply_event succeeds now WorkItemEvent.review_completed id "devin" named in
          let raised = raise_level now LifecycleLevel.review_completed "review_completed" told in
          let same : s.commit_sha ≡ head = (string_eq.agree_iff s.commit_sha head).0 e in
          let framed =
            apply_event-Framed succeeds now WorkItemEvent.review_completed id "devin" named in
          let (state, status, sha, at) =
            raise_level-review now LifecycleLevel.review_completed "review_completed" told in
          let review : HasReview head raised = (
            status
                ∙ ap (λ (r : PullRequest). r.review_status) framed.0
                ∙ ap some (completed_value s.status c),
            sha ∙ ap (λ (r : PullRequest). r.review_head_sha) framed.0 ∙ ap some same,
            at ∙ ap (λ (r : PullRequest). r.head_sha) framed.0 ∙ a,
          ) in
          inr (ground (arith, review))
      | inr c ↦
          let why = concat ("devin review still " ∷ review_value s.status ∷ []) in
          inl (
            ground
              (arith, review_timeout-unready head why (with_review succeeds minutes now s w) h))
    ]
  ]

  start_review-ReadyFor :
      (api : ReviewService) (url head reason : String) (w : World)
      → is_ready w.item.state ≡ false
      → w.row.head_sha ≡ head
      → ReadyFor head (start_review succeeds minutes now api url head reason w)
  unfolding start_review
  start_review-ReadyFor api url head reason w h a = elim (Answer-cases (api.trigger_review url)) [
    | inr (text, e) ↦
        let timeout =
          review_timeout-unready head (concat ("devin review API error: " ∷ text ∷ [])) w h in
        inl (ground (arith, timeout))
    | inl (s, e) ↦
        let begun =
          triggered succeeds minutes now s.commit_sha reason (called (Call.trigger_review url) w) in
        let seen : ReadyFor head (observe_review succeeds minutes now head s begun) =
          observe_review-ReadyFor head s begun h a in
        rw (start_review, e) (seen)
  ]

  not_observed-unready :
      (why : String) (w : World)
      → is_ready (not_observed succeeds minutes now why w).item.state ≡ false
  not_observed-unready why w =
      apply_event-unready succeeds now WorkItemEvent.review_not_observed why "controller" w refl

  pub check_review-ReadyFor :
      (api : ReviewService) (url head : String) (w : World)
      → is_ready w.item.state ≡ false
      → w.row.head_sha ≡ head
      → ReadyFor head (check_review succeeds minutes now api url head w)
  unfolding check_review
  check_review-ReadyFor api url head w h a =
      let short = take_chars 12 head in
      elim (Answer-cases (api.get_review url head)) [
        | inr (text, e) ↦
            rw (check_review, e)
              (inl
                (review_timeout-unready head (concat ("devin review API error: " ∷ text ∷ [])) w h))
        | inl (found, e) ↦ elim (Option-cases found) [
          | inl q ↦
              rw (check_review, e)
                (rw (q) (
                  start_review-ReadyFor api url head (concat ("triggered for " ∷ short ∷ [])) w h
                    a))
          | inr (s, q) ↦
              rw (check_review, e)
                (rw (q)
                  (elim (Bool-cases (not (is_terminal s.status) || is_review_completed s.status)) [
                    | inl c ↦ rw (c) (observe_review-ReadyFor head s w h a)
                    | inr c ↦ rw (c) (elim (Bool-cases (not (is_errored s.status))) [
                      | inl d ↦ rw (d) (
                          inl (
                            not_observed-unready
                              (concat
                                ("devin review " ∷ review_value s.status ∷ " on " ∷ short ∷ []))
                              w))
                      | inr d ↦ rw (d) (elim (Bool-cases (review_retriggered w.row.id head w.log)) [
                        | inl t ↦ rw (t) (
                            inl (
                              not_observed-unready
                                (concat ("devin review errored twice on " ∷ short ∷ [])) w))
                        | inr t ↦ rw (t) (
                            start_review-ReadyFor api url head
                              (concat ("review errored on " ∷ short ∷ ", re-triggered" ∷ [])) w h a)
                      ])
                    ])
                  ]))
        ]
      ]
