-- ===== src/Engine/Retries.antt =====
-- Red checks, and what belongs to a human (`_retry_or_fail` and `_apply_pr`,
-- hardening_loop/orchestrator/engine.py).
use superset_hardening_loop.Prelude.{
  ℕ, ◌+◌, ◌≤◌, ◌<◌, String, ◌≡◌, refl, ◌∙◌, inl, inr, ◌⊎◌, Bool, true, false, none, some, List, [],
  ◌∷◌, arith,
}
use superset_hardening_loop.Prelude.Tests.{leb, Bool-cases, Option-cases}
use superset_hardening_loop.Prelude.Equality.{string_eq, ◌==◌}
use superset_hardening_loop.Prelude.Strings.{concat, show_nat, take_chars}
use superset_hardening_loop.Prelude.Lists.{keep_if}
use superset_hardening_loop.Domain.WorkItemState.{WorkItemState}
use superset_hardening_loop.Domain.LifecycleLevel.{LifecycleLevel}
use superset_hardening_loop.Lifecycle.WorkItem.{WorkItemEvent, work_item_transitions}
use superset_hardening_loop.Depth.Ladder.{CheckRun}
use superset_hardening_loop.Policy.{PullRequestInfo}
use superset_hardening_loop.Vex.{CharClasses}
use superset_hardening_loop.Closer.Validity.{Outside}
use superset_hardening_loop.Engine.World.{Call, World, called, Attempt}
use superset_hardening_loop.Engine.Apply.{apply_event}
use superset_hardening_loop.Engine.Levels.{reset_level, reverify_new_head}
use superset_hardening_loop.Engine.Laws.{apply_event-state}
use superset_hardening_loop.Engine.Checks.{is_red}
use superset_hardening_loop.Engine.Approval.{Review}
use superset_hardening_loop.Engine.Archive.{Archive}
use superset_hardening_loop.Engine.Retry.{
  retry_or_fail, resume, first_head_red, woken, exhausted_reason, retry_text, retry_comment,
}
use superset_hardening_loop.Engine.Messages.{messages, messages-called, messages-apply_event}
use superset_hardening_loop.Engine.Review.{Answer, ReviewService}
use superset_hardening_loop.Engine.Follow.{Settings, take_head, pushed, apply_pr}
use superset_hardening_loop.Engine.Frame.{apply_event-Framed}

-- The session of the item is asked once more, and no other session is asked.
abbrev pub IsAskedOnce : World → World → Type 0
IsAskedOnce w v =
    (sid : String) × ((w.item.active_session_id ≡ some sid)
      × (messages (λ to. true) v.calls ≡ messages (λ to. true) w.calls + 1)
      × (messages (λ to. to == sid) v.calls ≡ messages (λ to. to == sid) w.calls + 1))

-- The session is asked once more, or the item has failed and nothing is asked.
abbrev pub Retried : ℕ → World → World → Type 0
Retried limit w v =
    ((w.item.retries_used < limit)
      × (v.item.retries_used ≡ w.item.retries_used + 1)
      × (v.item.state ≡ WorkItemState.session_active)
      × IsAskedOnce w v)
    ⊎ (((limit ≤ w.item.retries_used) ⊎ (w.item.active_session_id ≡ none))
        × (v.item.retries_used ≡ w.item.retries_used)
        × (v.item.state ≡ WorkItemState.failed)
        × (messages (λ to. true) v.calls ≡ messages (λ to. true) w.calls))

failed_transitions :
    (work_item_transitions WorkItemState.checks_failed WorkItemEvent.retry_sent
      ≡ some WorkItemState.session_active)
    × (work_item_transitions WorkItemState.checks_failed WorkItemEvent.retries_exhausted
        ≡ some WorkItemState.failed)
unfolding work_item_transitions
failed_transitions = (refl, refl)

module _ (succeeds : Call → Bool) (limit now : ℕ) where
  messages-resume :
      (to : String → Bool) (head : String) (failed : List CheckRun) (w : World) {v : World}
      → resume succeeds limit now head failed w ≡ Attempt.stored v
      → messages to v.calls ≡ messages to w.calls
  unfolding resume
  messages-resume to head failed w {v} h =
      let sent = woken succeeds limit now w in
      let why = concat ("retry " ∷ show_nat w.item.retries_used ∷ []) in
      let u = apply_event succeeds now WorkItemEvent.retry_sent why "controller" sent in
      let kept =
        messages-apply_event succeeds now to WorkItemEvent.retry_sent why "controller" sent in
      let same : messages to u.calls ≡ messages to w.calls = elim (Option-cases w.session) [
        | inl e ↦ ground arith
        | inr (s, e) ↦ ground arith
      ] in
      elim (Option-cases u.item.issue_number) [
        | inl e ↦ ground arith
        | inr (n, e) ↦
            let comment =
              Call.comment_issue n
                (retry_comment succeeds limit now head w.item.retries_used failed) in
            elim (Bool-cases (succeeds comment)) [
              | inl b ↦ ground (arith, messages-called to comment u)
              | inr b ↦ absurd (ground arith)
            ]
      ]

  resume_lem :
      (head : String) (failed : List CheckRun) (w : World) {v : World}
      → w.item.state ≡ WorkItemState.checks_failed
      → resume succeeds limit now head failed w ≡ Attempt.stored v
      → (v.item.retries_used ≡ w.item.retries_used) × (v.item.state ≡ WorkItemState.session_active)
  unfolding resume
  resume_lem head failed w {v} s h =
      let sent = woken succeeds limit now w in
      let why = concat ("retry " ∷ show_nat w.item.retries_used ∷ []) in
      ground (
        arith,
        apply_event-Framed succeeds now WorkItemEvent.retry_sent why "controller" sent,
        apply_event-state succeeds now WorkItemEvent.retry_sent why "controller" sent,
        failed_transitions,
      )

  -- The branch without a message.
  exhausted_lem :
      (why : String) (w : World)
      → w.item.state ≡ WorkItemState.checks_failed
      → ((apply_event succeeds now WorkItemEvent.retries_exhausted why "controller"
            w).item.retries_used
          ≡ w.item.retries_used)
        × ((apply_event succeeds now WorkItemEvent.retries_exhausted why "controller" w).item.state
            ≡ WorkItemState.failed)
        × (messages
              (λ to. true)
              (apply_event succeeds now WorkItemEvent.retries_exhausted why "controller" w).calls
            ≡ messages (λ to. true) w.calls)
  exhausted_lem why w s =
      let framed =
        apply_event-Framed succeeds now WorkItemEvent.retries_exhausted why "controller" w in
      let state =
        apply_event-state succeeds now WorkItemEvent.retries_exhausted why "controller" w in
      (
        framed.1,
        ground (arith, state, failed_transitions),
        messages-apply_event succeeds now (λ to. true) WorkItemEvent.retries_exhausted why
            "controller" w,
      )

  -- The branch with one, which went out.
  asked_lem :
      (sid text head : String) (failed : List CheckRun) (w : World) {v : World}
      → w.item.state ≡ WorkItemState.checks_failed
      → w.item.active_session_id ≡ some sid
      → resume succeeds limit now head failed (called (Call.send_message sid text) w)
        ≡ Attempt.stored v
      → (v.item.retries_used ≡ w.item.retries_used)
        × (v.item.state ≡ WorkItemState.session_active)
        × IsAskedOnce w v
  asked_lem sid text head failed w {v} s a h =
      let message = Call.send_message sid text in
      let resumed = resume_lem head failed (called message w) {v = v} s h in
      let to_any =
        messages-resume (λ to. true) head failed (called message w) h
        ∙ messages-called (λ to. true) message w in
      let itself : (sid == sid) ≡ true = (string_eq.agree_iff sid sid).1 refl in
      let to_it : messages (λ to. to == sid) v.calls ≡ messages (λ to. to == sid) w.calls + 1 =
        ground (
          arith,
          messages-resume (λ to. to == sid) head failed (called message w) h,
          messages-called (λ to. to == sid) message w,
        ) in
      (resumed.0, resumed.1, (sid, (a, to_any, to_it)))

  -- After red checks the session of the item is sent one more message, and no other session is, which
  -- counts as a retry, only while fewer than the limit are used; otherwise, or without a session, the
  -- item has failed and no message is sent. So the limit is never exceeded.
  pub retry_or_fail_bounded :
      (url head : String) (checks : List CheckRun) (w : World) {v : World}
      → w.item.state ≡ WorkItemState.checks_failed
      → w.item.retries_used ≤ limit
      → retry_or_fail succeeds limit now url head checks w ≡ Attempt.stored v
      → (v.item.retries_used ≤ limit) × Retried limit w v
  unfolding retry_or_fail
  retry_or_fail_bounded url head checks w {v} s b h =
      let failed = keep_if is_red checks in
      let w1 = first_head_red succeeds limit now head w in
      let why = exhausted_reason succeeds limit now w1.item.retries_used failed in
      let same : w1.item ≡ w.item = ground arith in
      let quiet : w1.calls ≡ w.calls = ground arith in
      let before : w1.item.state ≡ WorkItemState.checks_failed = ground arith in
      let ended = exhausted_lem why w1 before in
      elim (Bool-cases (leb limit w1.item.retries_used)) [
        | inl e ↦ let used : limit ≤ w.item.retries_used = ground arith in ground (arith, ended)
        | inr e ↦ elim (Option-cases w1.item.active_session_id) [
          | inl q ↦
              let alone : w.item.active_session_id ≡ none = ground arith in ground (arith, ended)
          | inr (sid, q) ↦
              let w2 : World = record w1 {
                item = record w1.item { retries_used = w1.item.retries_used + 1 };
              } in
              let text = retry_text succeeds limit now url head w2.item.retries_used failed in
              elim (Bool-cases (succeeds (Call.send_message sid text))) [
                | inr f ↦ absurd (ground arith)
                | inl f ↦
                    let asked = asked_lem sid text head failed w2 {v = v} before q (ground arith) in
                    let (asks, (a, to_any, to_it)) = asked.2 in
                    let holder : w.item.active_session_id ≡ some asks = ground arith in
                    let any : messages (λ to. true) v.calls ≡ messages (λ to. true) w.calls + 1 =
                      ground arith in
                    let it : messages (λ to. to == asks) v.calls
                        ≡ messages (λ to. to == asks) w.calls + 1 =
                      ground arith in
                    let below : w.item.retries_used < limit = ground arith in
                    let spent : v.item.retries_used ≡ w.item.retries_used + 1 = ground arith in
                    let within : v.item.retries_used ≤ limit = ground arith in
                    (within, inl (below, spent, asked.1, (asks, (holder, any, it))))
              ]
        ]
      ]

reset_level-rest :
    (now : ℕ) (level : LifecycleLevel) (why : String) (w : World)
    → ((reset_level now level why w).item.state ≡ w.item.state)
      × ((reset_level now level why w).item.retries_used ≡ w.item.retries_used)
      × ((reset_level now level why w).calls ≡ w.calls)
      × ((reset_level now level why w).checks ≡ w.checks)
unfolding reset_level
reset_level-rest now level why w = ground arith

-- An item that belongs to a human stays with the human while its pull request is open: neither its state
-- nor its retries nor the checks on record change, and nothing is called.
pub apply_pr_hands_off :
    (out : Outside) (cs : CharClasses) (archive : Archive) (settings : Settings)
    (succeeds : Call → Bool) (now : ℕ) (api : ReviewService) (reviews : Answer (List Review))
    (pr : PullRequestInfo) (checks : List CheckRun) (w : World)
    → w.item.state ≡ WorkItemState.needs_human
    → pr.merged ≡ false
    → (pr.state == "closed") ≡ false
    → (apply_pr out cs archive settings succeeds now api reviews pr checks w
        ≡ Attempt.stored (take_head succeeds now pr w))
      × ((take_head succeeds now pr w).item.state ≡ WorkItemState.needs_human)
      × ((take_head succeeds now pr w).item.retries_used ≡ w.item.retries_used)
      × ((take_head succeeds now pr w).calls ≡ w.calls)
      × ((take_head succeeds now pr w).checks ≡ w.checks)
unfolding apply_pr take_head reverify_new_head
apply_pr_hands_off out cs archive settings succeeds now api reviews pr checks w s m c =
    let touched : World = record w { row = record w.row { updated_at = now } } in
    let changed = pushed succeeds now pr touched in
    let why = concat ("new head " ∷ take_chars 12 pr.head_sha ∷ []) in
    ground (arith, reset_level-rest now LifecycleLevel.pr_opened why changed)
