-- ===== src/Assess/Laws.antt =====
-- When `assess` (hardening_loop/orchestrator/assess.py) takes each of its decisions.
use superset_hardening_loop.Prelude.{
  String, ◌≡◌, ◌↔◌, ◌⊎◌, inl, inr, true, false, Option, some, arith,
}
use superset_hardening_loop.Prelude.Tests.{Option-cases}
use superset_hardening_loop.Prelude.Lists.{is_empty}
use superset_hardening_loop.Prelude.Floats.{Floats}
use superset_hardening_loop.Devin.Status.{Outcome}
use superset_hardening_loop.Devin.Snapshot.{
  SessionSnapshot, outcome, is_budget_stop, is_error, is_waiting_for_approval, is_waiting_for_user,
  is_final_report, is_done,
}
use superset_hardening_loop.Assess.{
  Decision, SessionFacts, assess, assess_question, assess_final, assess_working, whitelisted_reply,
}

question_ends :
    (q : Option String)
    → ((assess_question q).decision ≡ Decision.answer_question)
      ⊎ ((assess_question q).decision ≡ Decision.needs_human)
unfolding assess_question
question_ends q = ground arith

question_answered :
    (q : Option String)
    → (assess_question q).decision ≡ Decision.answer_question
    → (r : String) × (whitelisted_reply q ≡ some r) × ((assess_question q).reply ≡ some r)
unfolding assess_question
question_answered q h = elim (Option-cases (whitelisted_reply q)) [
  | inl e ↦ ground arith
  | inr (r, e) ↦ (r, e, ground arith)
]

done_is_final : {F : Type 0} (s : SessionSnapshot F) → is_done s ≡ true → is_final_report s ≡ true
unfolding is_final_report
done_is_final s h = ground arith

module _ (fl : Floats) (s : SessionSnapshot fl.Float) (facts : SessionFacts fl.Float) where
  open fl use {gt, ge, mul, nine_tenths}

  -- No hard stop applies: no budget stop, no error, the cap kept and no approval awaited.
  pub record IsClear : Type 0 where
    pub within_budget : is_budget_stop s ≡ false
    pub no_error : is_error s ≡ false
    pub within_cap : gt s.acus_consumed facts.acu_cap ≡ false
    pub no_approval : is_waiting_for_approval s ≡ false

  -- The evidence for a delivered pull request.
  pub record IsDelivered : Type 0 where
    pub final : is_final_report s ≡ true
    pub schema : facts.schema_valid ≡ true
    pub claimed : outcome s ≡ some Outcome.pr_opened
    pub listed : is_empty s.pull_requests ≡ false
    pub verified : facts.pr_verified ≡ true
    pub policy : facts.diff_policy_ok ≡ true

  -- How the branch on a delivered report, on a working session and on a question can end.
  final_ends :
      ((assess_final fl s facts).decision ≡ Decision.ready_for_verification)
      ⊎ ((assess_final fl s facts).decision ≡ Decision.needs_human)
  unfolding assess_final
  final_ends = ground arith

  working_ends :
      ((assess_working fl s facts).decision ≡ Decision.continue_polling)
      ⊎ ((assess_working fl s facts).decision ≡ Decision.budget_warning)
  unfolding assess_working
  working_ends = ground arith

  working_warns :
      (assess_working fl s facts).decision ≡ Decision.budget_warning
      → (facts.budget_warning_sent ≡ false)
        × (ge s.acus_consumed (mul nine_tenths facts.acu_cap) ≡ true)
  unfolding assess_working
  working_warns h = ground arith

  final_ready : ((assess_final fl s facts).decision ≡ Decision.ready_for_verification) ↔ (
      (facts.schema_valid ≡ true)
      × (outcome s ≡ some Outcome.pr_opened)
      × (is_empty s.pull_requests ≡ false)
      × (facts.pr_verified ≡ true)
      × (facts.diff_policy_ok ≡ true))
  unfolding assess_final
  final_ready = ground arith

  -- A session is handed over to verification exactly when no hard stop applies and the pull request
  -- is delivered with all its evidence; the wall clock has no part in it.
  pub assess_ready :
      (q : Option String)
      → ((assess fl s facts q).decision ≡ Decision.ready_for_verification) ↔ (IsClear × IsDelivered)
  unfolding assess
  assess_ready q = ground (arith, question_ends q, working_ends, final_ready)

  -- A session whose verdict is still waited for.
  pub record IsPending : Type 0 where
    pub not_final : is_final_report s ≡ false
    pub in_time : facts.wall_clock_exceeded ≡ false

  -- A session is left to work, with a budget warning or without, exactly when no hard stop applies,
  -- its verdict is still waited for within the wall clock, and it asks no question.
  pub assess_working_on :
      (q : Option String)
      → (((assess fl s facts q).decision ≡ Decision.continue_polling)
          ⊎ ((assess fl s facts q).decision ≡ Decision.budget_warning))
        ↔ (IsClear × IsPending × (is_waiting_for_user s ≡ false))
  unfolding assess
  assess_working_on q = ground (arith, question_ends q, working_ends, final_ends)

  -- The budget warning is given only if none was sent and nine tenths of the cap are used.
  assess_warns_once :
      (q : Option String)
      → (assess fl s facts q).decision ≡ Decision.budget_warning
      → (facts.budget_warning_sent ≡ false)
        × (ge s.acus_consumed (mul nine_tenths facts.acu_cap) ≡ true)
  unfolding assess
  assess_warns_once q h = working_warns (ground (arith, question_ends q, final_ends))

  asked :
      (q : Option String)
      → (assess fl s facts q).decision ≡ Decision.answer_question
      → IsClear
        × IsPending
        × (is_waiting_for_user s ≡ true)
        × (assess fl s facts q ≡ assess_question q)
  unfolding assess
  asked q h = ground (arith, working_ends, final_ends)

  -- A question is answered only for a session with no hard stop whose verdict is still waited for
  -- and which waits for the user, and the answer is the whitelisted reply to that question.
  pub assess_answers_whitelist :
      (q : Option String)
      → (assess fl s facts q).decision ≡ Decision.answer_question
      → IsClear
        × IsPending
        × (is_waiting_for_user s ≡ true)
        × ((r : String) × (whitelisted_reply q ≡ some r) × ((assess fl s facts q).reply ≡ some r))
  assess_answers_whitelist q h =
      let (clear, pending, waiting, same) = asked q h in
      let (r, listed, replied) = question_answered q (rw same at h) in
      (clear, pending, waiting, (r, listed, rw same replied))

  -- A session that is done is never polled, warned or answered again: it is handed over or a human
  -- takes it.
  pub assess_done :
      (q : Option String)
      → is_done s ≡ true
      → ((assess fl s facts q).decision ≡ Decision.ready_for_verification)
        ⊎ ((assess fl s facts q).decision ≡ Decision.needs_human)
  unfolding assess
  assess_done q h = ground (arith, final_ends, done_is_final s h)
