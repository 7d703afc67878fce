-- ===== src/Domain/FindingState.antt =====
-- `FindingState` and its closing members (hardening_loop/domain/enums.py). The member `open` is
-- spelled `opened`.
use superset_hardening_loop.Prelude.{String, Bool, true, false}

pub data FindingState : Type 0 where
  opened unclassified grouped in_remediation awaiting_rescan fixed : FindingState
  approved_disposition scanner_disagreement_resolved regression human_blocked : FindingState

abbrev pub value : FindingState → String
value FindingState.opened = "open"
value FindingState.unclassified = "unclassified"
value FindingState.grouped = "grouped"
value FindingState.in_remediation = "in_remediation"
value FindingState.awaiting_rescan = "awaiting_rescan"
value FindingState.fixed = "fixed"
value FindingState.approved_disposition = "approved_disposition"
value FindingState.scanner_disagreement_resolved = "scanner_disagreement_resolved"
value FindingState.regression = "regression"
value FindingState.human_blocked = "human_blocked"

-- `CLOSING_FINDING_STATES`, as membership.
abbrev pub in_closing : FindingState → Bool
in_closing FindingState.fixed = true
in_closing FindingState.approved_disposition = true
in_closing FindingState.scanner_disagreement_resolved = true
in_closing _ = false
