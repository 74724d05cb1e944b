-- ===== src/Ledger/Commands.antt =====
-- Calls of the ledger's write operations, one after the other: what `PaperLedger` does under its
-- write lock, each call in a transaction that is rolled back if it fails.
use kronos_stock.Common.{ℕ, String, List, [], ◌∷◌, Option, ok, err}
use kronos_stock.Common.Time.{Timestamp}
use kronos_stock.Symbols.{Side}
use kronos_stock.Ledger.Records.{
  Account, AccountEvent, AgentDecision, RiskReview, OrderEvent, KillSwitchEvent, NavSnapshot,
  Ledger,
}
use kronos_stock.Ledger.Append.{
  Appended, create_account, append_account_event, append_agent_decision, append_order_proposal,
  append_risk_review, append_order, append_order_event, append_kill_switch_event,
}
use kronos_stock.Ledger.Fills.{FillRequest, append_fill}
use kronos_stock.Ledger.Nav.{append_nav_snapshot}

pub data Command : Type 0 where
  open_account : Account → Command
  account_event : AccountEvent → Command
  decide : AgentDecision → Command
  propose : String → String → Side → ℕ → String → String → String → Timestamp → Command
  review : RiskReview → Command
  order : String → String → String → Timestamp → Command
  order_event : OrderEvent → Command
  fill : FillRequest → Command
  nav_snapshot : NavSnapshot → Command
  kill_switch_event : KillSwitchEvent → Command

-- The ledger behind a transaction.
abbrev pub committed : Ledger → Appended → Ledger
committed l (ok m) = m
committed l (err e) = l

module _ (julianday : Timestamp → Option ℕ) where
  unfoldable pub execute : Command → Ledger → Appended
  execute (open_account row) l = create_account julianday row l
  execute (account_event row) l = append_account_event julianday row l
  execute (decide row) l = append_agent_decision julianday row l
  execute (propose p d side n key model version at) l =
      append_order_proposal julianday p d side n key model version at l
  execute (review row) l = append_risk_review julianday row l
  execute (order o r key at) l = append_order julianday o r key at l
  execute (order_event row) l = append_order_event julianday row l
  execute (fill q) l = append_fill julianday q l
  execute (nav_snapshot row) l = append_nav_snapshot julianday row l
  execute (kill_switch_event row) l = append_kill_switch_event julianday row l

  unfoldable pub run_commands : List Command → Ledger → Ledger
  unfolding execute
  run_commands [] l = l
  run_commands (c ∷ cs) l = run_commands cs (committed l (execute c l))
