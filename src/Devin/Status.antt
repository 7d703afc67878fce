-- ===== src/Devin/Status.antt =====
-- The session enums and their derived sets (hardening_loop/devin/enums.py). The members `exit`,
-- `error` and `new` keep their names.
use superset_hardening_loop.Prelude.{String, Bool, true, false, Option, none, some}
use superset_hardening_loop.Prelude.Tests.{if◌then◌else◌}
use superset_hardening_loop.Prelude.Equality.{string_eq, ◌==◌}

pub data DevinStatus : Type 0 where
  new claimed running exit error suspended resuming : DevinStatus

pub data DevinStatusDetail : Type 0 where
  working waiting_for_user waiting_for_approval finished inactivity : DevinStatusDetail
  user_request usage_limit_exceeded out_of_credits out_of_quota : DevinStatusDetail
  no_quota_allocation payment_declined org_usage_limit_exceeded : DevinStatusDetail
  user_usage_limit_exceeded total_session_limit_exceeded error : DevinStatusDetail

pub data Outcome : Type 0 where
  pr_opened blocked no_change_needed : Outcome

abbrev pub status_value : DevinStatus → String
status_value DevinStatus.new = "new"
status_value DevinStatus.claimed = "claimed"
status_value DevinStatus.running = "running"
status_value DevinStatus.exit = "exit"
status_value DevinStatus.error = "error"
status_value DevinStatus.suspended = "suspended"
status_value DevinStatus.resuming = "resuming"

abbrev pub detail_value : DevinStatusDetail → String
detail_value DevinStatusDetail.working = "working"
detail_value DevinStatusDetail.waiting_for_user = "waiting_for_user"
detail_value DevinStatusDetail.waiting_for_approval = "waiting_for_approval"
detail_value DevinStatusDetail.finished = "finished"
detail_value DevinStatusDetail.inactivity = "inactivity"
detail_value DevinStatusDetail.user_request = "user_request"
detail_value DevinStatusDetail.usage_limit_exceeded = "usage_limit_exceeded"
detail_value DevinStatusDetail.out_of_credits = "out_of_credits"
detail_value DevinStatusDetail.out_of_quota = "out_of_quota"
detail_value DevinStatusDetail.no_quota_allocation = "no_quota_allocation"
detail_value DevinStatusDetail.payment_declined = "payment_declined"
detail_value DevinStatusDetail.org_usage_limit_exceeded = "org_usage_limit_exceeded"
detail_value DevinStatusDetail.user_usage_limit_exceeded = "user_usage_limit_exceeded"
detail_value DevinStatusDetail.total_session_limit_exceeded = "total_session_limit_exceeded"
detail_value DevinStatusDetail.error = "error"

-- How an f-string shows a detail that may be `None`.
abbrev pub show_detail : Option DevinStatusDetail → String
show_detail none = "None"
show_detail (some d) = detail_value d

-- `BUDGET_STOP_DETAILS`, as membership.
abbrev pub in_budget_stop : DevinStatusDetail → Bool
in_budget_stop DevinStatusDetail.usage_limit_exceeded = true
in_budget_stop DevinStatusDetail.out_of_credits = true
in_budget_stop DevinStatusDetail.out_of_quota = true
in_budget_stop DevinStatusDetail.no_quota_allocation = true
in_budget_stop DevinStatusDetail.payment_declined = true
in_budget_stop DevinStatusDetail.org_usage_limit_exceeded = true
in_budget_stop DevinStatusDetail.user_usage_limit_exceeded = true
in_budget_stop DevinStatusDetail.total_session_limit_exceeded = true
in_budget_stop _ = false

-- `RESUMABLE_SUSPENSION_DETAILS`, as membership.
abbrev pub in_resumable : DevinStatusDetail → Bool
in_resumable DevinStatusDetail.inactivity = true
in_resumable DevinStatusDetail.user_request = true
in_resumable _ = false

-- `Outcome(raw)`; `none` is `ValueError`.
abbrev pub parse_outcome : String → Option Outcome
parse_outcome raw =
    if raw == "pr_opened"
    then some Outcome.pr_opened
    else if raw == "blocked"
    then some Outcome.blocked
    else if raw == "no_change_needed"
    then some Outcome.no_change_needed
    else none
