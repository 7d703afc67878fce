-- ===== src/Engine/World.antt =====
-- The rows that the engine changes (hardening_loop/models/tables.py), with the columns it uses here,
-- and the calls it makes on GitHub and Devin. Whether a call raises is asked of a function. Timestamps of one
-- operation are one reading of the clock.
use superset_hardening_loop.Prelude.{
  ℕ, ◌≡◌, refl, inl, inr, ◌⊎◌, String, Bool, Option, some, List, [], ◌∷◌, ◌++◌,
}
use superset_hardening_loop.Prelude.Dict.{Dict}
use superset_hardening_loop.Domain.WorkItemState.{WorkItemState}
use superset_hardening_loop.Domain.LifecycleLevel.{LifecycleLevel}
use superset_hardening_loop.Domain.Kind.{Kind}
use superset_hardening_loop.Models.Finding.{Finding}
use superset_hardening_loop.Depth.Ladder.{VerificationDepth, CheckStatus, CheckSource}
use superset_hardening_loop.Prelude.Json.{Fields}

-- A stored row: it has an id.
pub record WorkItem : Type 0 where
  pub id : ℕ
  pub kind : Kind
  pub state : WorkItemState
  pub retries_used : ℕ
  pub active_session_id : Option String
  pub issue_number : Option ℕ
  pub issue_url : Option String
  pub pr_head_sha : Option String
  pub merge_sha : Option String
  pub lifecycle_level : LifecycleLevel
  pub verification_depth : Option VerificationDepth
  pub blocked_reason : Option String
  pub human_resolution : Option String
  pub updated_at : ℕ
  pub merged_at : Option ℕ
  pub verified_at : Option ℕ

pub record PullRequest : Type 0 where
  pub id : ℕ
  pub head_sha : String
  pub state : String
  pub merge_sha : Option String
  pub first_head_sha : Option String
  pub first_head_checks_green : Option Bool
  pub lifecycle_level : LifecycleLevel
  pub verification_depth : Option VerificationDepth
  pub depth_rungs : List (String × String)
  pub review_status : Option String
  pub review_id : Option String
  pub review_head_sha : Option String
  pub approved_by : Option String
  pub merged_at : Option ℕ
  pub updated_at : ℕ

pub record Event : Type 0 where
  pub ts : ℕ
  pub actor : String
  pub entity_type : String
  pub entity_id : ℕ
  pub event : String
  pub from_state : Option String
  pub to_state : Option String
  pub reason : Option String
  pub evidence_ids : List ℕ

-- `Event(...)`, as `_event` fills it.
abbrev pub entry : ℕ → String → String → ℕ → String → String → String → String → List ℕ → Event
entry ts actor entity_type entity_id event from_state to_state reason evidence_ids = record {
  ts = ts;
  actor = actor;
  entity_type = entity_type;
  entity_id = entity_id;
  event = event;
  from_state = some from_state;
  to_state = some to_state;
  reason = some reason;
  evidence_ids = evidence_ids;
}

pub data Call : Type 0 where
  add_labels : ℕ → String → Call
  comment_issue : ℕ → String → Call
  remove_label : ℕ → String → Call
  close_issue : ℕ → Call
  reopen_issue : ℕ → Call
  send_message : String → String → Call
  trigger_review : String → Call

-- The columns of a `Session` that its pull request reads or changes.
pub record SessionRow : Type 0 where
  pub structured_output : Option Fields
  pub messages_sent : ℕ
  pub finished_at : Option ℕ

-- `PRCheck`, without its pull request: the rows of one pull request are kept together.
pub record PrCheck : Type 0 where
  pub head_sha : String
  pub name : String
  pub status : String
  pub conclusion : Option String
  pub url : Option String
  pub observed_at : ℕ

-- `VerificationCheck`, kept in the same way.
pub record VerificationCheck : Type 0 where
  pub head_sha : String
  pub depth : VerificationDepth
  pub name : String
  pub source : CheckSource
  pub status : CheckStatus
  pub detail : String
  pub url : Option String
  pub observed_at : ℕ

-- The work item with its pull request, the session that it is bound to, the findings of the database,
-- the log and the calls that have been made.
pub record World : Type 0 where
  pub item : WorkItem
  pub row : PullRequest
  pub session : Option SessionRow
  pub checks : List PrCheck
  pub verifications : List VerificationCheck
  pub findings : List Finding
  pub log : List Event
  pub calls : List Call
  -- The counts that `apply_scan_run` returns.
  pub counts : Dict String ℕ

-- `db.add(Event(...))`
abbrev pub write : Event → World → World
write e w = record w { log = w.log ++ e ∷ [] }

abbrev pub called : Call → World → World
called c w = record w { calls = w.calls ++ c ∷ [] }

-- What a write transaction comes to. An exception rolls the rows back; the calls stay made.
pub data Attempt {ℓ} (A : Type ℓ) : Type ℓ where
  stored : A → Attempt A
  rolled_back : List Call → Attempt A

abbrev pub Outcome : Type 0
Outcome = Attempt World

infixl 5 ◌>>=◌
abbrev pub ◌>>=◌ {ℓ κ} : {A : Type ℓ} {B : Type κ} → Attempt A → (A → Attempt B) → Attempt B
Attempt.stored a >>= f = f a
Attempt.rolled_back cs >>= f = Attempt.rolled_back cs

pub Attempt-cases {ℓ} :
    {A : Type ℓ} (a : Attempt A)
    → ((x : A) × (a ≡ Attempt.stored x)) ⊎ ((c : List Call) × (a ≡ Attempt.rolled_back c))
Attempt-cases (Attempt.stored x) = inl (x, refl)
Attempt-cases (Attempt.rolled_back c) = inr (c, refl)
