-- ===== src/Ledger/Books.antt =====
-- The books of the ledger: its cash and its positions follow from its accounts and its fills.
use kronos_stock.Common.{
  ℕ, ◌≡◌, refl, String, [], ◌∷◌, ◌++◌, Bool, arith, Result, ok, IfOk, after-IfOk, ◌>>=◌, Bool-cases,
  inl, inr, IfOk_map, Option,
}
use kronos_stock.Common.Time.{Timestamp}
use kronos_stock.Symbols.{Side}
use kronos_stock.Ledger.Records.{
  AgentDecision, RiskReview, KillSwitchEvent, NavSnapshot, AccountEvent, PaperOrder, OrderEvent,
  Ledger,
}
use kronos_stock.Ledger.Checks.{LedgerError}
use kronos_stock.Ledger.Nav.{append_nav_snapshot}
use kronos_stock.Ledger.Append.{
  Appended, unless_replayed, insert_account_event, insert_order_event, append_account_event,
  append_agent_decision, append_order_proposal, append_risk_review, append_order,
  append_order_event, append_kill_switch_event,
}

-- Nothing but events, decisions, proposals, reviews and orders is added.
pub record KeepsBooks (l m : Ledger) : Type 0 where
  pub same_accounts : m.accounts ≡ l.accounts
  pub same_fills : m.fills ≡ l.fills
  pub same_cash : m.cash_events ≡ l.cash_events
  pub same_positions : m.position_events ≡ l.position_events

keeps : (l : Ledger) → KeepsBooks l l
keeps l = record {
  same_accounts = refl;
  same_fills = refl;
  same_cash = refl;
  same_positions = refl;
}

module _ (julianday : Timestamp → Option ℕ) where
  pub insert_account_event-KeepsBooks :
      (row : AccountEvent) (l : Ledger) → IfOk (insert_account_event julianday row l) (KeepsBooks l)
  unfolding insert_account_event
  insert_account_event-KeepsBooks row l = ground arith

  pub insert_order_event-KeepsBooks :
      (row : OrderEvent) (l : Ledger) → IfOk (insert_order_event julianday row l) (KeepsBooks l)
  unfolding insert_order_event
  insert_order_event-KeepsBooks row l = ground arith

  -- A call whose rest keeps the books.
  behind :
      {A : Type 0} (l : Ledger) (m : Result LedgerError A) (f : A → Appended)
      → ((a : A) → IfOk (f a) (KeepsBooks l))
      → IfOk (m >>= f) (KeepsBooks l)
  behind l m f h = after-IfOk (KeepsBooks l) m f h

  unless_replayed-KeepsBooks :
      (replayed : Result LedgerError Bool) (l : Ledger) (insert : Appended)
      → IfOk insert (KeepsBooks l)
      → IfOk (unless_replayed replayed l insert) (KeepsBooks l)
  unless_replayed-KeepsBooks replayed l insert h = behind l replayed _ λ seen.
      elim (Bool-cases seen) [ inl replays ↦ rw replays (keeps l) | inr inserts ↦ rw inserts h ]

  pub append_account_event-KeepsBooks :
      (row : AccountEvent) (l : Ledger) → IfOk (append_account_event julianday row l) (KeepsBooks l)
  unfolding append_account_event
  append_account_event-KeepsBooks row l =
      search (behind, unless_replayed-KeepsBooks, insert_account_event-KeepsBooks) depth 12

  decided :
      (row : AgentDecision) (l : Ledger)
      → IfOk {E = LedgerError}
          (ok (record l { decisions = l.decisions ++ (row ∷ []) }))
          (KeepsBooks l)
  decided row l = record {
    same_accounts = refl;
    same_fills = refl;
    same_cash = refl;
    same_positions = refl;
  }

  pub append_agent_decision-KeepsBooks :
      (row : AgentDecision) (l : Ledger)
      → IfOk (append_agent_decision julianday row l) (KeepsBooks l)
  unfolding append_agent_decision
  append_agent_decision-KeepsBooks row l =
      search (behind, unless_replayed-KeepsBooks, decided) depth 12

  pub append_order_proposal-KeepsBooks :
      (p d : String) (side : Side) (n : ℕ) (key model version : String) (at : Timestamp)
      (l : Ledger)
      → IfOk (append_order_proposal julianday p d side n key model version at l) (KeepsBooks l)
  unfolding append_order_proposal
  append_order_proposal-KeepsBooks p d side n key model version at l = ground (arith, keeps l)

  pub append_risk_review-KeepsBooks :
      (row : RiskReview) (l : Ledger) → IfOk (append_risk_review julianday row l) (KeepsBooks l)
  unfolding append_risk_review
  append_risk_review-KeepsBooks row l = ground (arith, keeps l)

  ordered :
      (row : OrderEvent) (o : PaperOrder) (l : Ledger)
      → IfOk
          (insert_order_event julianday row (record l { orders = l.orders ++ (o ∷ []) }))
          (KeepsBooks l)
  ordered row o l =
      IfOk_map (KeepsBooks (record l { orders = l.orders ++ (o ∷ []) })) (KeepsBooks l)
        (insert_order_event julianday row (record l { orders = l.orders ++ (o ∷ []) }))
        (insert_order_event-KeepsBooks row (record l { orders = l.orders ++ (o ∷ []) }))
        λ m k. record {
          same_accounts = k.same_accounts;
          same_fills = k.same_fills;
          same_cash = k.same_cash;
          same_positions = k.same_positions;
        }

  pub append_order-KeepsBooks :
      (o r key : String) (at : Timestamp) (l : Ledger)
      → IfOk (append_order julianday o r key at l) (KeepsBooks l)
  unfolding append_order
  append_order-KeepsBooks o r key at l =
      search (behind, unless_replayed-KeepsBooks, ordered) depth 12

  pub append_order_event-KeepsBooks :
      (row : OrderEvent) (l : Ledger) → IfOk (append_order_event julianday row l) (KeepsBooks l)
  unfolding append_order_event
  append_order_event-KeepsBooks row l =
      search (behind, unless_replayed-KeepsBooks, insert_order_event-KeepsBooks) depth 12

  pub append_kill_switch_event-KeepsBooks :
      (row : KillSwitchEvent) (l : Ledger)
      → IfOk (append_kill_switch_event julianday row l) (KeepsBooks l)
  unfolding append_kill_switch_event
  append_kill_switch_event-KeepsBooks row l = ground (arith, keeps l)

  snapped :
      (row : NavSnapshot) (l : Ledger)
      → IfOk {E = LedgerError}
          (ok (record l { nav_snapshots = l.nav_snapshots ++ (row ∷ []) }))
          (KeepsBooks l)
  snapped row l = record {
    same_accounts = refl;
    same_fills = refl;
    same_cash = refl;
    same_positions = refl;
  }

  pub append_nav_snapshot-KeepsBooks :
      (row : NavSnapshot) (l : Ledger) → IfOk (append_nav_snapshot julianday row l) (KeepsBooks l)
  unfolding append_nav_snapshot
  append_nav_snapshot-KeepsBooks row l =
      search (behind, unless_replayed-KeepsBooks, snapped) depth 24
