-- ===== src/Engine/Review.antt =====
-- `_check_review`, `_review_retriggered`, `_review_timeout` and `_last_event_ts`
-- (hardening_loop/orchestrator/engine.py); `ReviewStatus` and `ReviewSnapshot`
-- (hardening_loop/devin/protocol.py). Devin's answers are parameters.
use superset_hardening_loop.Prelude.{
  ℕ, ◌≡◌, refl, inl, inr, ◌⊎◌, ◌+◌, ◌*◌, String, Bool, true, false, ◌&&◌, ◌||◌, not, Option, none,
  some, List, [], ◌∷◌,
}
use superset_hardening_loop.Prelude.Tests.{ltb, nat_beq, get_or, if◌then◌else◌}
use superset_hardening_loop.Prelude.Text.{codes, starts_with}
use superset_hardening_loop.Prelude.Equality.{string_eq, same_option, ◌==◌}
use superset_hardening_loop.Prelude.Strings.{concat, show_nat, take_chars}
use superset_hardening_loop.Prelude.Lists.{any}
use superset_hardening_loop.Domain.LifecycleLevel.{LifecycleLevel}
use superset_hardening_loop.Lifecycle.WorkItem.{WorkItemEvent, event_value}
use superset_hardening_loop.Engine.World.{Event, Call, World, write, called}
use superset_hardening_loop.Engine.Apply.{apply_event}
use superset_hardening_loop.Engine.Levels.{raise_level}

pub data ReviewStatus : Type 0 where
  pending running completed errored cancelled : ReviewStatus

abbrev pub review_value : ReviewStatus → String
review_value ReviewStatus.pending = "pending"
review_value ReviewStatus.running = "running"
review_value ReviewStatus.completed = "completed"
review_value ReviewStatus.errored = "errored"
review_value ReviewStatus.cancelled = "cancelled"

abbrev pub is_terminal : ReviewStatus → Bool
is_terminal ReviewStatus.completed = true
is_terminal ReviewStatus.errored = true
is_terminal ReviewStatus.cancelled = true
is_terminal _ = false

abbrev pub is_review_completed : ReviewStatus → Bool
is_review_completed ReviewStatus.completed = true
is_review_completed _ = false

abbrev pub is_errored : ReviewStatus → Bool
is_errored ReviewStatus.errored = true
is_errored _ = false

pub record ReviewSnapshot : Type 0 where
  pub status : ReviewStatus
  pub repo_path : String
  pub pr_number : ℕ
  pub commit_sha : String

-- What a call of a service comes to: its answer, or the text of an exception.
pub data Answer {ℓ} (A : Type ℓ) : Type ℓ where
  answered : A → Answer A
  raised : String → Answer A

-- Devin's answers in this tick: the review of a pull request at a commit, and the start of one.
pub record ReviewService : Type 0 where
  pub get_review : String → String → Answer (Option ReviewSnapshot)
  pub trigger_review : String → Answer ReviewSnapshot

abbrev newest : ℕ → Option ℕ → Option ℕ
newest t none = some t
newest t (some u) = if ltb t u then some u else some t

-- The time of the last entry of a work item with a name.
abbrev pub last_event_ts : ℕ → String → List Event → Option ℕ
last_event_ts id name [] = none
last_event_ts id name (e ∷ es) =
    let rest = last_event_ts id name es in
    if e.entity_type == "work_item" && nat_beq e.entity_id id && e.event == name
    then newest e.ts rest
    else rest

-- Whether the review of a head has been triggered again after an error.
abbrev pub review_retriggered : ℕ → String → List Event → Bool
review_retriggered row_id head = any (λ (e : Event).
    e.entity_type == "pull_request"
    && nat_beq e.entity_id row_id
    && e.event == "review_triggered"
    && same_option e.to_state (some head)
    && starts_with (codes (get_or e.reason "")) (codes "review errored"))

module _ (succeeds : Call → Bool) (timeout_minutes now : ℕ) where
  -- Times are seconds.
  unfoldable pub review_timeout : String → String → World → World
  review_timeout head why w =
      elim (last_event_ts w.item.id (event_value WorkItemEvent.checks_green) w.log) [
        | none ↦ w
        | some green_at ↦
            if ltb (green_at + 60 * timeout_minutes) now
            then apply_event succeeds now WorkItemEvent.review_not_observed
                (concat (
                  why
                  ∷ " after "
                  ∷ show_nat timeout_minutes
                  ∷ " min on "
                  ∷ take_chars 12 head
                  ∷ []))
                "controller" w
            else w
      ]

  abbrev pub review_id_of : ReviewSnapshot → String
  review_id_of s = concat (s.repo_path ∷ "#" ∷ show_nat s.pr_number ∷ "@" ∷ s.commit_sha ∷ [])

  -- The columns that name the review.
  abbrev pub with_review : ReviewSnapshot → World → World
  with_review s w = record w {
    row = record w.row {
      review_id = some (review_id_of s);
      review_head_sha = some s.commit_sha;
      review_status = some (review_value s.status);
    };
  }

  -- What follows the `try` block.
  unfoldable pub observe_review : String → ReviewSnapshot → World → World
  observe_review head s w =
      if not (s.commit_sha == head)
      then review_timeout head
          (concat ("devin review names different commit " ∷ take_chars 12 s.commit_sha ∷ [])) w
      else if is_review_completed s.status
      then raise_level now LifecycleLevel.review_completed "review_completed" (
          apply_event succeeds now WorkItemEvent.review_completed (review_id_of s) "devin"
            (with_review s w))
      else review_timeout head (concat ("devin review still " ∷ review_value s.status ∷ []))
          (with_review s w)

  abbrev pub api_error : String → String → World → World
  api_error head text w = review_timeout head (concat ("devin review API error: " ∷ text ∷ [])) w

  -- `_event` for a review that starts.
  abbrev pub triggered : String → String → World → World
  triggered commit_sha reason w =
      write
        (record {
          ts = now;
          actor = "controller";
          entity_type = "pull_request";
          entity_id = w.row.id;
          event = "review_triggered";
          from_state = none;
          to_state = some commit_sha;
          reason = some reason;
          evidence_ids = [];
        })
        w

  unfoldable pub start_review : ReviewService → String → String → String → World → World
  start_review api url head reason w = elim (api.trigger_review url) [
    | Answer.raised text ↦ api_error head text w
    | Answer.answered s ↦
        observe_review head s (triggered s.commit_sha reason (called (Call.trigger_review url) w))
  ]

  abbrev pub not_observed : String → World → World
  not_observed why w = apply_event succeeds now WorkItemEvent.review_not_observed why "controller" w

  unfoldable pub check_review : ReviewService → String → String → World → World
  check_review api url head w =
      let short = take_chars 12 head in
      elim (api.get_review url head) [
        | Answer.raised text ↦ api_error head text w
        | Answer.answered found ↦ elim found [
          | none ↦ start_review api url head (concat ("triggered for " ∷ short ∷ [])) w
          | some s ↦
              if not (is_terminal s.status) || is_review_completed s.status
              then observe_review head s w
              else if not (is_errored s.status)
              then not_observed
                  (concat ("devin review " ∷ review_value s.status ∷ " on " ∷ short ∷ [])) w
              else if review_retriggered w.row.id head w.log
              then not_observed (concat ("devin review errored twice on " ∷ short ∷ [])) w
              else start_review api url head
                  (concat ("review errored on " ∷ short ∷ ", re-triggered" ∷ [])) w
        ]
      ]

pub Answer-cases {ℓ} :
    {A : Type ℓ} (a : Answer A)
    → ((x : A) × (a ≡ Answer.answered x)) ⊎ ((t : String) × (a ≡ Answer.raised t))
Answer-cases (Answer.answered x) = inl (x, refl)
Answer-cases (Answer.raised t) = inr (t, refl)
