-- ===== src/Engine/Database.antt =====
-- The rows that a scan is weighed against: the work items with their own rows, the findings, and what a
-- loop over them writes besides (hardening_loop/orchestrator/engine.py).
use superset_hardening_loop.Prelude.{
  ℕ, String, Bool, true, false, Option, none, some, List, [], ◌∷◌,
}
use superset_hardening_loop.Prelude.Tests.{if◌then◌else◌}
use superset_hardening_loop.Prelude.Equality.{nat_eq, ◌==◌}
use superset_hardening_loop.Prelude.Dict.{Dict}
use superset_hardening_loop.Domain.WorkItemState.{WorkItemState}
use superset_hardening_loop.Models.Finding.{Finding}
use superset_hardening_loop.Engine.World.{
  WorkItem, PullRequest, SessionRow, PrCheck, VerificationCheck, Event, Call, World, Outcome,
  Attempt, ◌>>=◌,
}

-- A work item with its own rows; `has_row` says whether it has a pull request.
pub record Entry : Type 0 where
  pub item : WorkItem
  pub has_row : Bool
  pub row : PullRequest
  pub session : Option SessionRow
  pub checks : List PrCheck
  pub verifications : List VerificationCheck

-- What a loop over findings writes besides them.
pub record Ledger : Type 0 where
  pub log : List Event
  pub calls : List Call
  pub counts : Dict String ℕ

pub record Database : Type 0 where
  pub entries : List Entry
  pub findings : List Finding
  pub ledger : Ledger

abbrev pub world_of : Entry → List Finding → Ledger → World
world_of e findings l = record {
  item = e.item;
  row = e.row;
  session = e.session;
  checks = e.checks;
  verifications = e.verifications;
  findings = findings;
  log = l.log;
  calls = l.calls;
  counts = l.counts;
}

abbrev pub entry_of : Bool → World → Entry
entry_of has_row w = record {
  item = w.item;
  has_row = has_row;
  row = w.row;
  session = w.session;
  checks = w.checks;
  verifications = w.verifications;
}

abbrev pub ledger_of : World → Ledger
ledger_of w = record { log = w.log; calls = w.calls; counts = w.counts }

abbrev pub awaits_scan : WorkItemState → Bool
awaits_scan WorkItemState.merged = true
awaits_scan WorkItemState.awaiting_rescan = true
awaits_scan _ = false

abbrev pub item_with_id : ℕ → List Entry → Option WorkItem
item_with_id i [] = none
item_with_id i (e ∷ es) = if e.item.id == i then some e.item else item_with_id i es

-- A pass over the entries that pass a test; each takes the findings and the ledger on.
unfoldable pub pass :
    (Entry → Bool) → (Bool → World → Outcome) → Database → List Entry → Attempt Database
pass test body db [] = Attempt.stored (record db { entries = [] })
pass test body db (e ∷ es) =
    let kept = pass test body db es in
    elim (test e) [
      | false ↦ kept >>= λ d. Attempt.stored (record d { entries = e ∷ d.entries })
      | true ↦ elim (body e.has_row (world_of e db.findings db.ledger)) [
        | Attempt.rolled_back cs ↦ Attempt.rolled_back cs
        | Attempt.stored w ↦
            pass test body (record db { findings = w.findings; ledger = ledger_of w }) es >>= λ d.
            Attempt.stored (record d { entries = entry_of e.has_row w ∷ d.entries })
      ]
    ]
