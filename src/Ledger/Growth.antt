-- ===== src/Ledger/Growth.antt =====
-- The ledger of paper_trading/ledger.py only grows.
use kronos_stock.Common.{
  ℕ, String, List, [], ◌∷◌, ◌++◌, Bool, Result, ok, err, IfOk, after-IfOk, >>=-IfOk, ◌>>=◌,
  Bool-cases, inl, inr, Option, if◌then◌else◌,
}
use kronos_stock.Common.Time.{Timestamp}
use kronos_stock.Symbols.{Side}
use kronos_stock.Ledger.Records.{
  Account, AgentDecision, RiskReview, KillSwitchEvent, NavSnapshot, AccountEvent, PaperOrder,
  OrderEvent, PaperFill, Ledger,
}
use kronos_stock.Ledger.Checks.{LedgerError}
use kronos_stock.Ledger.Append.{
  Appended, unless_replayed, deposit_of, creation_of, create_account, append_account_event,
  append_agent_decision, append_order_proposal, append_risk_review, append_order,
  append_order_event, append_kill_switch_event, insert_account_event, insert_order_event,
}
use kronos_stock.Ledger.Fills.{
  FillRequest, filled_event, insert_fill, fill_order, append_fill, book_fill,
}
use kronos_stock.Ledger.Nav.{append_nav_snapshot}
use kronos_stock.Ledger.Commands.{
  Command, open_account, account_event, decide, propose, review, order, order_event, fill,
  nav_snapshot, kill_switch_event, committed, execute, run_commands,
}
use kronos_stock.Ledger.Tables.{
  Grows, stays, opened, evented, decided, proposed, judged, ordered, stepped, paid, valued,
  switched, filled,
}

module _ (julianday : Timestamp → Option ℕ) (s : Ledger) where
  -- A call whose rest only adds rows.
  behind-Grows :
      {A : Type 0} (m : Result LedgerError A) (f : A → Appended)
      → ((a : A) → IfOk (f a) (Grows s))
      → IfOk (m >>= f) (Grows s)
  behind-Grows m f h = after-IfOk (Grows s) m f h

  unless_replayed-Grows :
      (l : Ledger)
      → Grows s l
      → (replayed : Result LedgerError Bool) (insert : Appended) → IfOk insert (Grows s)
      → IfOk (unless_replayed replayed l insert) (Grows s)
  unless_replayed-Grows l g replayed insert h =
      behind-Grows replayed (λ seen. if seen then ok l else insert)
        λ seen. elim (Bool-cases seen) [ inl replays ↦ rw replays g | inr inserts ↦ rw inserts h ]

  insert_account_event-Grows :
      (row : AccountEvent) (l : Ledger)
      → Grows s l
      → IfOk (insert_account_event julianday row l) (Grows s)
  unfolding insert_account_event
  insert_account_event-Grows row l g =
      let h = evented s l g row in search (behind-Grows, h) depth 12

  insert_order_event-Grows :
      (row : OrderEvent) (l : Ledger)
      → Grows s l
      → IfOk (insert_order_event julianday row l) (Grows s)
  unfolding insert_order_event
  insert_order_event-Grows row l g = let h = stepped s l g row in search (behind-Grows, h) depth 12

  created :
      (row : Account) (l : Ledger)
      → Grows s l
      → IfOk
          (insert_account_event julianday
              (creation_of row)
              (record l { accounts = l.accounts ++ (row ∷ []) })
            >>= λ m. ok (record m { cash_events = m.cash_events ++ (deposit_of row ∷ []) }))
          (Grows s)
  created row l g =
      let grown : Ledger = record l { accounts = l.accounts ++ (row ∷ []) } in
      >>=-IfOk (Grows s) (Grows s) (insert_account_event julianday (creation_of row) grown)
        (λ m. ok (record m { cash_events = m.cash_events ++ (deposit_of row ∷ []) }))
        (insert_account_event-Grows (creation_of row) grown (opened s l g row))
        (λ m h. paid s m h (deposit_of row))

  create_account-Grows :
      (row : Account) (l : Ledger) → Grows s l → IfOk (create_account julianday row l) (Grows s)
  unfolding create_account
  create_account-Grows row l g =
      search (behind-Grows, unless_replayed-Grows l g, created row l g) depth 12

  append_account_event-Grows :
      (row : AccountEvent) (l : Ledger)
      → Grows s l
      → IfOk (append_account_event julianday row l) (Grows s)
  unfolding append_account_event
  append_account_event-Grows row l g =
      search (behind-Grows, unless_replayed-Grows l g, insert_account_event-Grows, g) depth 14

  append_agent_decision-Grows :
      (row : AgentDecision) (l : Ledger)
      → Grows s l
      → IfOk (append_agent_decision julianday row l) (Grows s)
  unfolding append_agent_decision
  append_agent_decision-Grows row l g =
      let h = decided s l g row in search (behind-Grows, unless_replayed-Grows l g, h) depth 16

  append_order_proposal-Grows :
      (p d : String) (side : Side) (n : ℕ) (key model version : String) (at : Timestamp)
      (l : Ledger)
      → Grows s l
      → IfOk (append_order_proposal julianday p d side n key model version at l) (Grows s)
  unfolding append_order_proposal
  append_order_proposal-Grows p d side n key model version at l g =
      search (behind-Grows, unless_replayed-Grows l g, proposed s l g) depth 16

  append_risk_review-Grows :
      (row : RiskReview) (l : Ledger)
      → Grows s l
      → IfOk (append_risk_review julianday row l) (Grows s)
  unfolding append_risk_review
  append_risk_review-Grows row l g =
      let h = judged s l g row in search (behind-Grows, unless_replayed-Grows l g, h) depth 16

  ordered-Grows :
      (row : OrderEvent) (o : PaperOrder) (l : Ledger)
      → Grows s l
      → IfOk
          (insert_order_event julianday row (record l { orders = l.orders ++ (o ∷ []) }))
          (Grows s)
  ordered-Grows row o l g =
      insert_order_event-Grows row (record l { orders = l.orders ++ (o ∷ []) }) (ordered s l g o)

  append_order-Grows :
      (o r key : String) (at : Timestamp) (l : Ledger)
      → Grows s l
      → IfOk (append_order julianday o r key at l) (Grows s)
  unfolding append_order
  append_order-Grows o r key at l g =
      search (behind-Grows, unless_replayed-Grows l g, ordered-Grows, g) depth 14

  append_order_event-Grows :
      (row : OrderEvent) (l : Ledger)
      → Grows s l
      → IfOk (append_order_event julianday row l) (Grows s)
  unfolding append_order_event
  append_order_event-Grows row l g =
      search (behind-Grows, unless_replayed-Grows l g, insert_order_event-Grows, g) depth 14

  append_kill_switch_event-Grows :
      (row : KillSwitchEvent) (l : Ledger)
      → Grows s l
      → IfOk (append_kill_switch_event julianday row l) (Grows s)
  unfolding append_kill_switch_event
  append_kill_switch_event-Grows row l g =
      search (behind-Grows, unless_replayed-Grows l g, switched s l g) depth 16

  append_nav_snapshot-Grows :
      (row : NavSnapshot) (l : Ledger)
      → Grows s l
      → IfOk (append_nav_snapshot julianday row l) (Grows s)
  unfolding append_nav_snapshot
  append_nav_snapshot-Grows row l g =
      let h = valued s l g row in search (behind-Grows, unless_replayed-Grows l g, h) depth 24

  insert_fill-Grows :
      (f : PaperFill) (o : PaperOrder) (l : Ledger)
      → Grows s l
      → IfOk (insert_fill julianday f o l) (Grows s)
  unfolding insert_fill
  insert_fill-Grows f o l g =
      let h = insert_order_event-Grows (filled_event f l) (book_fill f l) (filled s l g f) in
      search (behind-Grows, h) depth 10

  fill_order-Grows :
      (q : FillRequest) (o : PaperOrder) (l : Ledger)
      → Grows s l
      → IfOk (fill_order julianday q o l) (Grows s)
  unfolding fill_order
  fill_order-Grows q o l g =
      search (behind-Grows, unless_replayed-Grows l g, insert_fill-Grows, g) depth 16

  append_fill-Grows :
      (q : FillRequest) (l : Ledger) → Grows s l → IfOk (append_fill julianday q l) (Grows s)
  unfolding append_fill
  append_fill-Grows q l g = search (behind-Grows, fill_order-Grows, g) depth 12

  execute-Grows : (c : Command) (l : Ledger) → Grows s l → IfOk (execute julianday c l) (Grows s)
  unfolding execute
  execute-Grows (open_account row) l g = create_account-Grows row l g
  execute-Grows (account_event row) l g = append_account_event-Grows row l g
  execute-Grows (decide row) l g = append_agent_decision-Grows row l g
  execute-Grows (propose p d side n key model version at) l g =
      append_order_proposal-Grows p d side n key model version at l g
  execute-Grows (review row) l g = append_risk_review-Grows row l g
  execute-Grows (order o r key at) l g = append_order-Grows o r key at l g
  execute-Grows (order_event row) l g = append_order_event-Grows row l g
  execute-Grows (fill q) l g = append_fill-Grows q l g
  execute-Grows (nav_snapshot row) l g = append_nav_snapshot-Grows row l g
  execute-Grows (kill_switch_event row) l g = append_kill_switch_event-Grows row l g

  committed-Grows :
      (l : Ledger) → Grows s l → (m : Appended) → IfOk m (Grows s) → Grows s (committed l m)
  committed-Grows l g (ok m) h = h
  committed-Grows l g (err e) h = g

  run_from-Grows :
      (cs : List Command) (l : Ledger) → Grows s l → Grows s (run_commands julianday cs l)
  unfolding run_commands
  run_from-Grows [] l g = g
  run_from-Grows (c ∷ cs) l g =
      run_from-Grows cs (committed l (execute julianday c l))
        (committed-Grows l g (execute julianday c l) (execute-Grows c l g))

-- The ledger is append-only: whatever calls are made on it, refused ones included, the rows of each
-- table before the calls are the first rows of that table after them, unchanged and in their order.
pub run_commands-Grows :
    (julianday : Timestamp → Option ℕ) (cs : List Command) (l : Ledger)
    → Grows l (run_commands julianday cs l)
run_commands-Grows julianday cs l = run_from-Grows julianday l cs l (stays l)
