-- ===== src/Launch.antt =====
-- The operator's launch and cancel (hardening_loop/orchestrator/launch.py).
pub mod Laws
use superset_hardening_loop.Prelude.{
  ℕ, String, Bool, true, false, ◌&&◌, ◌||◌, not, Option, none, some,
}
use superset_hardening_loop.Prelude.Tests.{leb, nat_beq, is_some, if◌then◌else◌}
use superset_hardening_loop.Prelude.Equality.{string_eq, ◌==◌}
use superset_hardening_loop.Prelude.Floats.{Floats}
use superset_hardening_loop.Domain.Severity.{Severity, in_default_dispatch}
use superset_hardening_loop.Domain.WorkItemState.{WorkItemState, in_active, in_terminal}

pub data LaunchAction : Type 0 where
  launch relaunch : LaunchAction

pub data LaunchBlock : Type 0 where
  dispatch_in_progress session_in_flight awaiting_human_merge awaiting_rescan : LaunchBlock
  closed at_capacity over_budget scan_pending : LaunchBlock

pub record LaunchPreview (Float : Type 0) : Type 0 where
  pub work_item_id : ℕ
  pub state : WorkItemState
  pub action : Option LaunchAction
  pub block : Option LaunchBlock
  pub needs_issue : Bool
  pub needs_dispatch_approval : Bool
  pub acu_cap : Float
  pub active_sessions : ℕ
  pub max_concurrent_sessions : ℕ
  pub acu_consumed : Float
  pub acu_outstanding : Float
  pub global_acu_budget : Float
  pub repo : String
  pub branch : String
  pub pending_scans : ℕ

unfoldable pub eligible : {Float : Type 0} → LaunchPreview Float → Bool
eligible p = is_some p.action && not (is_some p.block)

-- The tests of `action_for`, in their order.
unfoldable pub action_for : WorkItemState → Option LaunchAction × Option LaunchBlock
action_for WorkItemState.queued = (some LaunchAction.launch, none)
action_for WorkItemState.issue_open = (some LaunchAction.launch, none)
action_for WorkItemState.needs_human = (some LaunchAction.relaunch, none)
action_for WorkItemState.failed = (some LaunchAction.relaunch, none)
action_for WorkItemState.dispatching = (none, some LaunchBlock.dispatch_in_progress)
action_for WorkItemState.ready_for_human =
    if in_active WorkItemState.ready_for_human
    then (none, some LaunchBlock.session_in_flight)
    else (none, some LaunchBlock.awaiting_human_merge)
action_for WorkItemState.merged = (none, some LaunchBlock.awaiting_rescan)
action_for WorkItemState.awaiting_rescan = (none, some LaunchBlock.awaiting_rescan)
action_for state =
    if in_active state
    then (none, some LaunchBlock.session_in_flight)
    else if in_terminal state
    then (none, some LaunchBlock.closed)
    else (none, some LaunchBlock.closed)

module _ (fl : Floats) where
  open fl use {Float, gt, add}

  abbrev pub acu_committed_after : LaunchPreview Float → Float
  acu_committed_after p = add (add p.acu_consumed p.acu_outstanding) p.acu_cap

  -- The blocks that `preview` adds to an action with none.
  unfoldable pub capacity_block : ℕ → ℕ → ℕ → Float → Float → Float → Float → Option LaunchBlock
  capacity_block pending active most consumed outstanding cap budget =
      if not (nat_beq pending 0)
      then some LaunchBlock.scan_pending
      else if leb most active
      then some LaunchBlock.at_capacity
      else if gt (add (add consumed outstanding) cap) budget
      then some LaunchBlock.over_budget
      else none

  unfoldable pub preview :
      ℕ
      → WorkItemState
      → Severity
      → Bool
      → Float
      → ℕ
      → ℕ
      → Float
      → Float
      → Float
      → String
      → String
      → ℕ
      → LaunchPreview Float
  unfolding action_for capacity_block
  preview work_item_id state severity has_issue acu_cap active_sessions max_concurrent_sessions
        acu_consumed acu_outstanding global_acu_budget repo branch pending_scans =
      let (action, block) = action_for state in
      record {
        work_item_id = work_item_id;
        state = state;
        action = action;
        block =
            if is_some action && not (is_some block)
            then capacity_block pending_scans active_sessions max_concurrent_sessions acu_consumed
                acu_outstanding acu_cap global_acu_budget
            else block;
        needs_issue = not has_issue;
        needs_dispatch_approval = not (in_default_dispatch severity);
        acu_cap = acu_cap;
        active_sessions = active_sessions;
        max_concurrent_sessions = max_concurrent_sessions;
        acu_consumed = acu_consumed;
        acu_outstanding = acu_outstanding;
        global_acu_budget = global_acu_budget;
        repo = repo;
        branch = branch;
        pending_scans = pending_scans;
      }

pub data CancelBlock : Type 0 where
  no_session pr_recorded not_active : CancelBlock

unfoldable pub cancel_block_for : WorkItemState → Bool → Bool → Option CancelBlock
cancel_block_for WorkItemState.session_active has_session has_pr =
    if not has_session
    then some CancelBlock.no_session
    else if has_pr
    then some CancelBlock.pr_recorded
    else none
cancel_block_for _ has_session has_pr = some CancelBlock.not_active
