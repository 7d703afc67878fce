-- ===== src/Tests/Sessions.antt =====
-- The theorems on session decisions (hardening_loop/orchestrator/assess.py) at concrete snapshots,
-- with ACUs in hundredths.
use superset_hardening_loop.Prelude.{ℕ, String, ◌≡◌, refl, ◌↔◌, true, false, none, some, [], ◌∷◌}
use superset_hardening_loop.Prelude.Floats.{hundredths}
use superset_hardening_loop.Prelude.Regex.{search_in}
use superset_hardening_loop.Prelude.Json.{Json, Fields}
use superset_hardening_loop.Devin.Status.{DevinStatus, DevinStatusDetail}
use superset_hardening_loop.Devin.Snapshot.{
  SessionSnapshot, is_budget_stop, is_error, is_waiting_for_user, is_waiting_for_approval,
  is_final_report, outcome_of,
}
use superset_hardening_loop.Assess.{
  Decision, SessionFacts, assess, assess_question, reply_to, whitelisted_reply,
}
use superset_hardening_loop.Assess.Laws.{
  IsClear, IsDelivered, IsPending, assess_ready, assess_answers_whitelist,
}

abbrev finished : SessionSnapshot ℕ
finished = record {
  session_id = "s1";
  url = "";
  status = DevinStatus.running;
  status_detail = some DevinStatusDetail.finished;
  acus_consumed = 250;
  pull_requests = record { pr_url = "u"; pr_state = none } ∷ [];
  structured_output = some (Fields.field "outcome" (Json.text "pr_opened") Fields.end);
  tags = [];
  created_at = 0;
  updated_at = 0;
}

-- A session that still works and has used 4.60 of 5 ACU.
abbrev working : SessionSnapshot ℕ
working = record finished {
  status_detail = some DevinStatusDetail.working;
  acus_consumed = 460;
  structured_output = none;
}

abbrev asking : SessionSnapshot ℕ
asking = record working { status_detail = some DevinStatusDetail.waiting_for_user }

abbrev facts : SessionFacts ℕ
facts = record {
  acu_cap = 500;
  schema_valid = true;
  pr_verified = true;
  diff_policy_ok = true;
  wall_clock_exceeded = false;
  budget_warning_sent = false;
}

assess_ready_example :
    ((assess hundredths finished facts none).decision ≡ Decision.ready_for_verification)
    ↔ (IsClear hundredths finished facts × IsDelivered hundredths finished facts)
assess_ready_example = assess_ready hundredths finished facts none

assess_answers_whitelist_example :
    IsClear hundredths asking facts
    × IsPending hundredths asking facts
    × (is_waiting_for_user asking ≡ true)
    × ((r : String) × (whitelisted_reply (some "Which base branch?") ≡ some r)
        × ((assess hundredths asking facts (some "Which base branch?")).reply ≡ some r))
unfolding assess assess_question is_budget_stop is_error is_final_report is_waiting_for_approval
    outcome_of whitelisted_reply reply_to search_in
assess_answers_whitelist_example =
    assess_answers_whitelist hundredths asking facts (some "Which base branch?") refl
