-- ===== src/Engine/Retry.antt =====
-- `_retry_or_fail` (hardening_loop/orchestrator/engine.py): red checks go back to the same session until
-- its retries are used up.
use superset_hardening_loop.Prelude.{
  ℕ, ◌+◌, String, Bool, false, ◌&&◌, not, none, some, List, [], ◌∷◌, ◌++◌, map,
}
use superset_hardening_loop.Prelude.Tests.{leb, get_or, is_some, if◌then◌else◌}
use superset_hardening_loop.Prelude.Text.{codes, has_content}
use superset_hardening_loop.Prelude.Equality.{string_eq, same_option}
use superset_hardening_loop.Prelude.Strings.{concat, join, show_nat, take_chars}
use superset_hardening_loop.Prelude.Lists.{keep_if}
use superset_hardening_loop.Lifecycle.WorkItem.{WorkItemEvent}
use superset_hardening_loop.Depth.Ladder.{CheckRun}
use superset_hardening_loop.Engine.World.{Call, World, Outcome, Attempt, ◌>>=◌}
use superset_hardening_loop.Engine.Apply.{apply_event}
use superset_hardening_loop.Engine.Checks.{is_red, names_in}
use superset_hardening_loop.Engine.Closing.{perform}

-- `text.rstrip()`
abbrev rstrip : String → String
rstrip String.[] = String.[]
rstrip (String.◌∷◌ c s) =
    if has_content (codes (String.◌∷◌ c s)) then String.◌∷◌ c (rstrip s) else String.[]

abbrev retry_line : CheckRun → String
retry_line c =
    rstrip (concat ("- " ∷ c.name ∷ ": " ∷ get_or c.conclusion "None" ∷ " " ∷ get_or c.url "" ∷ []))

module _ (succeeds : Call → Bool) (limit now : ℕ) where
  -- The message to the session.
  abbrev pub retry_text : String → String → ℕ → List CheckRun → String
  retry_text url head_sha used failed = join "\n" (
      concat (
          "CI failed on "
          ∷ url
          ∷ " (head "
          ∷ take_chars 12 head_sha
          ∷ "). Fix it in this same PR/branch (retry "
          ∷ show_nat used
          ∷ "/"
          ∷ show_nat limit
          ∷ "):"
          ∷ [])
        ∷ map retry_line failed
      ++ "Push the fix, then update the structured output. Do not open another PR." ∷ [])

  abbrev pub retry_comment : String → ℕ → List CheckRun → String
  retry_comment head_sha used failed = concat (
      "Checks failed on "
      ∷ take_chars 12 head_sha
      ∷ " ("
      ∷ join ", " (names_in failed)
      ∷ "); asked the same session to fix (retry "
      ∷ show_nat used
      ∷ ")."
      ∷ [])

  abbrev pub first_head_red : String → World → World
  first_head_red head_sha w =
      if not (is_some w.row.first_head_checks_green)
        && same_option (some head_sha) w.row.first_head_sha
      then record w { row = record w.row { first_head_checks_green = some false } }
      else w

  abbrev pub exhausted_reason : ℕ → List CheckRun → String
  exhausted_reason used failed = concat (
      show_nat used
      ∷ "/"
      ∷ show_nat limit
      ∷ " retries used; failed: "
      ∷ join ", " (names_in failed)
      ∷ [])

  abbrev pub woken : World → World
  woken w = elim w.session [
    | none ↦ w
    | some s ↦ record w {
      session = some (record s { messages_sent = s.messages_sent + 1; finished_at = none });
    }
  ]

  -- What follows the message.
  unfoldable pub resume : String → List CheckRun → World → Outcome
  resume head_sha failed w =
      let v =
        apply_event succeeds now WorkItemEvent.retry_sent
          (concat ("retry " ∷ show_nat w.item.retries_used ∷ [])) "controller" (woken w) in
      elim v.item.issue_number [
        | none ↦ Attempt.stored v
        | some n ↦
            perform succeeds now
              (Call.comment_issue n (retry_comment head_sha w.item.retries_used failed)) v
      ]

  unfoldable pub retry_or_fail : String → String → List CheckRun → World → Outcome
  retry_or_fail url head_sha checks w =
      let failed = keep_if is_red checks in
      let w1 = first_head_red head_sha w in
      let exhausted = Attempt.stored (
        apply_event succeeds now WorkItemEvent.retries_exhausted
          (exhausted_reason w1.item.retries_used failed) "controller" w1) in
      if leb limit w1.item.retries_used then exhausted else elim w1.item.active_session_id [
        | none ↦ exhausted
        | some sid ↦
            let w2 : World = record w1 {
              item = record w1.item { retries_used = w1.item.retries_used + 1 };
            } in
            perform succeeds now
              (Call.send_message sid (retry_text url head_sha w2.item.retries_used failed)) w2
            >>= λ w3. resume head_sha failed w3
      ]
