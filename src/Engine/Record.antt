-- ===== src/Engine/Record.antt =====
-- `_record_checks` and `_record_depth` (hardening_loop/orchestrator/engine.py): the check runs of a head
-- and the rungs that they prove.
use superset_hardening_loop.Prelude.{
  ℕ, String, Bool, true, false, ◌&&◌, Option, none, some, List, [], ◌∷◌, ◌++◌, map,
}
use superset_hardening_loop.Prelude.Tests.{nat_beq, if◌then◌else◌}
use superset_hardening_loop.Prelude.Equality.{string_eq, ◌==◌}
use superset_hardening_loop.Prelude.Lists.{is_empty}
use superset_hardening_loop.Prelude.Text.{codes}
use superset_hardening_loop.Prelude.Strings.{concat, join, show_nat, take_chars}
use superset_hardening_loop.Depth.Ladder.{
  VerificationDepth, depth_number, depth_name, CheckStatus, check_status_value, source_eq, CheckRun,
  default_ladder,
}
use superset_hardening_loop.Depth.Evaluate.{
  CheckRecord, DepthEvaluation, rung_summary, evaluate, highest_passed,
}
use superset_hardening_loop.Depth.Claims.{claims_from_output}
use superset_hardening_loop.Engine.World.{PrCheck, VerificationCheck, World, write}

-- The columns of a row that one observation writes.
abbrev pub observe_check : ℕ → CheckRun → PrCheck → PrCheck
observe_check now c row = record row {
  status = c.status;
  conclusion = c.conclusion;
  url = c.url;
  observed_at = now;
}

abbrev new_check : ℕ → String → CheckRun → PrCheck
new_check now head_sha c = record {
  head_sha = head_sha;
  name = c.name;
  status = c.status;
  conclusion = c.conclusion;
  url = c.url;
  observed_at = now;
}

abbrev pub is_check_of : String → String → PrCheck → Bool
is_check_of head_sha name row = row.head_sha == head_sha && row.name == name

-- One round of the loop of `_record_checks`, on the rows of the pull request.
unfoldable pub record_check : ℕ → String → CheckRun → List PrCheck → List PrCheck
record_check now head_sha c [] = new_check now head_sha c ∷ []
record_check now head_sha c (row ∷ rows) =
    if is_check_of head_sha c.name row
    then observe_check now c row ∷ rows
    else row ∷ record_check now head_sha c rows

unfoldable pub record_checks : ℕ → String → List CheckRun → List PrCheck → List PrCheck
record_checks now head_sha [] rows = rows
record_checks now head_sha (c ∷ cs) rows =
    record_checks now head_sha cs (record_check now head_sha c rows)

-- The row of a check of a head, if there is one.
abbrev pub check_named : String → String → List PrCheck → Option PrCheck
check_named head_sha name [] = none
check_named head_sha name (row ∷ rows) =
    if is_check_of head_sha name row then some row else check_named head_sha name rows

abbrev is_verification_of : String → CheckRecord → VerificationCheck → Bool
is_verification_of head_sha rec row =
    row.head_sha == head_sha && source_eq row.source rec.source && row.name == rec.name

-- One round of the loop of `_record_depth`; a row that is there keeps its depth.
unfoldable pub record_verification :
    ℕ → String → CheckRecord → List VerificationCheck → List VerificationCheck
record_verification now head_sha rec [] =
    record {
      head_sha = head_sha;
      depth = rec.depth;
      name = rec.name;
      source = rec.source;
      status = rec.status;
      detail = rec.detail;
      url = rec.url;
      observed_at = now;
    }
    ∷ []
record_verification now head_sha rec (row ∷ rows) =
    if is_verification_of head_sha rec row
    then record row { status = rec.status; detail = rec.detail; url = rec.url; observed_at = now }
      ∷ rows
    else row ∷ record_verification now head_sha rec rows

unfoldable pub record_verifications :
    ℕ → String → List CheckRecord → List VerificationCheck → List VerificationCheck
record_verifications now head_sha [] rows = rows
record_verifications now head_sha (r ∷ rs) rows =
    record_verifications now head_sha rs (record_verification now head_sha r rows)

abbrev same_depth : Option VerificationDepth → Option VerificationDepth → Bool
same_depth none none = true
same_depth (some a) (some b) = nat_beq (depth_number a) (depth_number b)
same_depth _ _ = false

abbrev depth_text : Option VerificationDepth → Option String
depth_text none = none
depth_text (some d) = some (depth_name d)

abbrev depth_reason : String → DepthEvaluation → String
depth_reason head_sha ev = concat (
    "head "
    ∷ take_chars 12 head_sha
    ∷ ": "
    ∷ join ", " (
        map
          (λ (r : VerificationDepth × CheckStatus).
            concat ("L" ∷ show_nat (depth_number r.0) ∷ "=" ∷ check_status_value r.1 ∷ []))
          ev.rungs)
    ∷ [])

-- `_event` for a change of depth, which may start or end with none.
abbrev depth_event : ℕ → String → Option VerificationDepth → DepthEvaluation → World → World
depth_event now head_sha highest ev w =
    write
      (record {
        ts = now;
        actor = "controller";
        entity_type = "work_item";
        entity_id = w.item.id;
        event = "verification_depth";
        from_state = depth_text w.row.verification_depth;
        to_state = depth_text highest;
        reason = some (depth_reason head_sha ev);
        evidence_ids = [];
      })
      w

-- What the session claims; an item without a session, or with an empty name for one, has no output.
abbrev claims : World → List CheckRecord
claims w = elim w.item.active_session_id [
  | none ↦ []
  | some i ↦
      let output : List CheckRecord = elim w.session [
        | none ↦ []
        | some s ↦ claims_from_output s.structured_output
      ] in
      if is_empty (codes i) then [] else output
]

unfoldable pub record_depth : ℕ → String → List CheckRun → World → World
record_depth now head_sha checks w =
    let ev = evaluate checks default_ladder in
    let highest = highest_passed ev in
    let stored : World = record w {
      verifications = record_verifications now head_sha (ev.records ++ claims w) w.verifications;
      row = record w.row { depth_rungs = rung_summary ev };
    } in
    let told =
      if same_depth highest w.row.verification_depth
      then stored
      else depth_event now head_sha highest ev stored in
    record told {
      row = record told.row { verification_depth = highest };
      item = record told.item { verification_depth = highest };
    }
