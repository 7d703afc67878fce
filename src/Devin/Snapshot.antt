-- ===== src/Devin/Snapshot.antt =====
-- `SessionSnapshot` and its predicates (hardening_loop/devin/enums.py).
use superset_hardening_loop.Prelude.{
  ℕ, String, Bool, true, false, ◌&&◌, ◌||◌, Option, none, some, List,
}
use superset_hardening_loop.Prelude.Tests.{if◌then◌else◌}
use superset_hardening_loop.Prelude.Text.{codes, has_content}
use superset_hardening_loop.Prelude.Json.{Fields, get, as_text, is_empty_dict}
use superset_hardening_loop.Devin.Status.{
  DevinStatus, DevinStatusDetail, Outcome, in_budget_stop, in_resumable, parse_outcome,
}

pub record SessionPullRequest : Type 0 where
  pub pr_url : String
  pub pr_state : Option String

-- `SessionSnapshot`, over the type of its ACU count.
pub record SessionSnapshot (Float : Type 0) : Type 0 where
  pub session_id : String
  pub url : String
  pub status : DevinStatus
  pub status_detail : Option DevinStatusDetail
  pub acus_consumed : Float
  pub pull_requests : List SessionPullRequest
  pub structured_output : Option Fields
  pub tags : List String
  pub created_at : ℕ
  pub updated_at : ℕ

abbrev status_in_exit_error : DevinStatus → Bool
status_in_exit_error DevinStatus.exit = true
status_in_exit_error DevinStatus.error = true
status_in_exit_error _ = false

abbrev status_is_running : DevinStatus → Bool
status_is_running DevinStatus.running = true
status_is_running _ = false

abbrev status_is_suspended : DevinStatus → Bool
status_is_suspended DevinStatus.suspended = true
status_is_suspended _ = false

abbrev status_is_error : DevinStatus → Bool
status_is_error DevinStatus.error = true
status_is_error _ = false

abbrev status_in_live : DevinStatus → Bool
status_in_live DevinStatus.new = true
status_in_live DevinStatus.claimed = true
status_in_live DevinStatus.running = true
status_in_live DevinStatus.resuming = true
status_in_live _ = false

abbrev detail_is_finished : Option DevinStatusDetail → Bool
detail_is_finished (some DevinStatusDetail.finished) = true
detail_is_finished _ = false

abbrev detail_is_inactivity : Option DevinStatusDetail → Bool
detail_is_inactivity (some DevinStatusDetail.inactivity) = true
detail_is_inactivity _ = false

abbrev detail_is_waiting_for_user : Option DevinStatusDetail → Bool
detail_is_waiting_for_user (some DevinStatusDetail.waiting_for_user) = true
detail_is_waiting_for_user _ = false

abbrev detail_is_waiting_for_approval : Option DevinStatusDetail → Bool
detail_is_waiting_for_approval (some DevinStatusDetail.waiting_for_approval) = true
detail_is_waiting_for_approval _ = false

abbrev detail_is_error : Option DevinStatusDetail → Bool
detail_is_error (some DevinStatusDetail.error) = true
detail_is_error _ = false

abbrev detail_in : (DevinStatusDetail → Bool) → Option DevinStatusDetail → Bool
detail_in p none = false
detail_in p (some d) = p d

abbrev pub outcome_is_pr_opened : Option Outcome → Bool
outcome_is_pr_opened (some Outcome.pr_opened) = true
outcome_is_pr_opened _ = false

abbrev outcome_is_blocked : Option Outcome → Bool
outcome_is_blocked (some Outcome.blocked) = true
outcome_is_blocked _ = false

abbrev outcome_is_no_change : Option Outcome → Bool
outcome_is_no_change (some Outcome.no_change_needed) = true
outcome_is_no_change _ = false

-- `SessionSnapshot.outcome`, of the structured output.
unfoldable pub outcome_of : Option Fields → Option Outcome
outcome_of none = none
outcome_of (some d) =
    if is_empty_dict d
    then none
    else elim (as_text (get d "outcome")) [ none ↦ none | some raw ↦ parse_outcome raw ]

-- `SessionSnapshot.blocked_reason`, of the structured output.
unfoldable pub blocked_reason_of : Option Fields → Option String
blocked_reason_of none = none
blocked_reason_of (some d) =
    if is_empty_dict d then none else elim (as_text (get d "blocked_reason")) [
      | none ↦ none
      | some t ↦ if has_content (codes t) then some t else none
    ]

module _ {Float : Type 0} (s : SessionSnapshot Float) where
  abbrev pub outcome : Option Outcome
  outcome = outcome_of s.structured_output

  abbrev pub blocked_reason : Option String
  blocked_reason = blocked_reason_of s.structured_output

  unfoldable pub is_done : Bool
  is_done =
      status_in_exit_error s.status
      || status_is_running s.status && detail_is_finished s.status_detail

  unfoldable pub is_budget_stop : Bool
  is_budget_stop = detail_in in_budget_stop s.status_detail

  unfoldable pub is_resumable_suspension : Bool
  is_resumable_suspension = status_is_suspended s.status && detail_in in_resumable s.status_detail

  unfoldable pub is_inactivity_suspension : Bool
  is_inactivity_suspension = status_is_suspended s.status && detail_is_inactivity s.status_detail

  unfoldable pub is_waiting_for_user : Bool
  is_waiting_for_user = status_is_running s.status && detail_is_waiting_for_user s.status_detail

  unfoldable pub is_waiting_for_approval : Bool
  is_waiting_for_approval =
      status_is_running s.status && detail_is_waiting_for_approval s.status_detail

  unfoldable pub is_error : Bool
  is_error = status_is_error s.status || detail_is_error s.status_detail

  unfoldable pub is_active : Bool
  unfolding is_resumable_suspension
  is_active = status_in_live s.status || is_resumable_suspension

  unfoldable pub is_final_report : Bool
  unfolding is_done is_waiting_for_user is_inactivity_suspension
  is_final_report =
      is_done || (is_waiting_for_user || is_inactivity_suspension) && outcome_is_pr_opened outcome

  unfoldable pub output_blocked : Bool
  output_blocked =
      outcome_is_blocked outcome && elim blocked_reason [ none ↦ false | some r ↦ true ]

  unfoldable pub no_change_needed : Bool
  no_change_needed = outcome_is_no_change outcome
