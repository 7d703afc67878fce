-- ===== src/Assess.antt =====
-- What the controller does with a polled session (hardening_loop/orchestrator/assess.py).
pub mod Laws
use superset_hardening_loop.Prelude.{
  String, Bool, true, false, ◌&&◌, not, Option, none, some, [], ◌∷◌,
}
use superset_hardening_loop.Prelude.Tests.{if◌then◌else◌, get_or}
use superset_hardening_loop.Prelude.Lists.{is_empty}
use superset_hardening_loop.Prelude.Floats.{Floats}
use superset_hardening_loop.Prelude.Text.{codes}
use superset_hardening_loop.Prelude.Regex.{Regex, folded, optional, search_in}
use superset_hardening_loop.Prelude.Strings.{take_chars, concat}
use superset_hardening_loop.Devin.Status.{Outcome, status_value, show_detail}
use superset_hardening_loop.Devin.Snapshot.{
  SessionSnapshot, outcome, blocked_reason, is_budget_stop, is_error, is_waiting_for_approval,
  is_waiting_for_user, is_final_report,
}

pub data Decision : Type 0 where
  continue_polling answer_question budget_warning ready_for_verification needs_human : Decision

pub record Assessment : Type 0 where
  pub decision : Decision
  pub reason : String
  pub reply : Option String

-- `SessionFacts`
pub record SessionFacts (Float : Type 0) : Type 0 where
  pub acu_cap : Float
  pub schema_valid : Bool
  pub pr_verified : Bool
  pub diff_policy_ok : Bool
  pub wall_clock_exceeded : Bool
  pub budget_warning_sent : Bool

-- `Assessment(decision, reason)`
abbrev pub verdict : Decision → String → Assessment
verdict d r = record { decision = d; reason = r; reply = none }

-- The three patterns of `QUESTION_WHITELIST`, each under `re.I`.
abbrev which_branch : Regex
which_branch = Regex.seq (folded "which ") (Regex.seq (optional (folded "base ")) (folded "branch"))

abbrev may_i : Regex
may_i =
    Regex.seq (Regex.alt (folded "may") (Regex.alt (folded "can") (folded "should"))) (folded " i ")

abbrev open_pull_request : Regex
open_pull_request = Regex.seq may_i (
    Regex.seq (Regex.alt (folded "open") (folded "create")) (
      Regex.seq (folded " ") (
        Regex.seq (Regex.alt (folded "the") (folded "a"))
          (Regex.seq (folded " ") (Regex.alt (folded "pull request") (folded "pr"))))))

abbrev run_tests : Regex
run_tests = Regex.seq may_i (
    Regex.seq (Regex.alt (folded "run") (folded "execute"))
      (Regex.seq (folded " ") (Regex.seq (optional (folded "the ")) (folded "tests"))))

abbrev branch_reply : String
branch_reply = "Use `main` (the 6.1.0 remediation branch) as the base branch."

abbrev pull_request_reply : String
pull_request_reply = "Yes. Open the PR against `main` in Hunter-1298/superset only."

abbrev tests_reply : String
tests_reply = "Yes. Run the tests and attach the logs; never report tests you did not run."

-- The loop of `whitelisted_reply` over `QUESTION_WHITELIST`.
unfoldable pub reply_to : String → Option String
reply_to question =
    if search_in which_branch (codes question)
    then some branch_reply
    else if search_in open_pull_request (codes question)
    then some pull_request_reply
    else if search_in run_tests (codes question)
    then some tests_reply
    else none

-- An empty question is no question.
unfoldable pub whitelisted_reply : Option String → Option String
whitelisted_reply none = none
whitelisted_reply (some question) = if is_empty (codes question) then none else reply_to question

-- The answer to a question of a waiting session.
unfoldable pub assess_question : Option String → Assessment
assess_question pending_question = elim (whitelisted_reply pending_question) [
  | none ↦ verdict Decision.needs_human (
      concat ("devin_question_not_whitelisted:" ∷ take_chars 200 (get_or pending_question "") ∷ []))
  | some reply ↦ record {
    decision = Decision.answer_question;
    reason = "whitelisted_question";
    reply = some reply;
  }
]

module _ (fl : Floats) where
  open fl use {Float, gt, ge, mul, nine_tenths, format2}

  -- The branches on a delivered report.
  unfoldable pub assess_final : SessionSnapshot Float → SessionFacts Float → Assessment
  assess_final s facts =
      if not facts.schema_valid
      then verdict Decision.needs_human "final_output_missing_or_invalid"
      else elim (outcome s) [
        | some o ↦ elim o [
          | Outcome.blocked ↦
              verdict Decision.needs_human
                (concat ("blocked_reason:" ∷ get_or (blocked_reason s) "missing" ∷ []))
          | Outcome.no_change_needed ↦
              verdict Decision.needs_human "no_change_needed_requires_human_verification"
          | Outcome.pr_opened ↦
              if is_empty s.pull_requests
              then verdict Decision.needs_human "pr_opened_claimed_but_no_pull_request"
              else if not facts.pr_verified
              then verdict Decision.needs_human "pull_request_failed_verification"
              else if not facts.diff_policy_ok
              then verdict Decision.needs_human "diff_policy_violation"
              else verdict Decision.ready_for_verification "pr_opened"
        ]
        | none ↦ verdict Decision.needs_human "unknown_outcome"
      ]

  -- The branches on a session that still works.
  unfoldable pub assess_working : SessionSnapshot Float → SessionFacts Float → Assessment
  assess_working s facts =
      if not facts.budget_warning_sent && ge s.acus_consumed (mul nine_tenths facts.acu_cap)
      then verdict Decision.budget_warning "acu_budget_90pct"
      else verdict Decision.continue_polling
          (concat (status_value s.status ∷ ":" ∷ show_detail s.status_detail ∷ []))

  unfoldable pub assess : SessionSnapshot Float → SessionFacts Float → Option String → Assessment
  assess s facts pending_question =
      if is_budget_stop s
      then verdict Decision.needs_human
          (concat ("devin_budget_stop:" ∷ show_detail s.status_detail ∷ []))
      else if is_error s
      then verdict Decision.needs_human "devin_error"
      else if gt s.acus_consumed facts.acu_cap
      then verdict Decision.needs_human (
          concat ("acu_cap_exceeded:" ∷ format2 s.acus_consumed ∷ ">" ∷ format2 facts.acu_cap ∷ []))
      else if facts.wall_clock_exceeded && not (is_final_report s)
      then verdict Decision.needs_human "session_wall_clock_exceeded"
      else if is_waiting_for_approval s
      then verdict Decision.needs_human "devin_action_approval_required"
      else if is_waiting_for_user s && not (is_final_report s)
      then assess_question pending_question
      else if is_final_report s
      then assess_final s facts
      else assess_working s facts
