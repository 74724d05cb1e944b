-- ===== src/Broker/Settlement.antt =====
-- Executions, and all calls of the paper cycle, keep the books and overdraw no account.
use kronos_stock.Common.{
  ℕ, ◌≡◌, ◌≢◌, refl, subst, String, List, [], ◌∷◌, not, ◌||◌, arith, Option, some, Option-cases,
  Result, ok, err, raise_if, or_raise, ◌>>=◌, IfOk, >>=-IfOk, IfOk_map, IfOk_both, after-IfOk,
  or_raise-IfOk, IfOk_const, str_eq, eq_iff, ltb, Bool-cases, inl, inr, All,
}
use kronos_stock.Common.Int.{pos, ◌≤ℤ◌, ltb_ℤ, sum_ℤ}
use kronos_stock.Common.Time.{Moment, Timestamp, aware}
use kronos_stock.Symbols.{s005930, s000660}
use kronos_stock.Ledger.Records.{PaperOrder, NavSnapshot, Ledger, empty_ledger}
use kronos_stock.Ledger.Same.{same_fill}
use kronos_stock.Ledger.Checks.{
  LedgerError, bad_time, bad_shape, conflict, unknown_row, require_kst_iso, cash_balance, position,
  fetch_row,
}
use kronos_stock.Ledger.Append.{Appended}
use kronos_stock.Ledger.Fills.{append_fill, fill_row}
use kronos_stock.Ledger.Nav.{latest_nav, append_nav_snapshot}
use kronos_stock.Ledger.Books.{KeepsBooks, append_nav_snapshot-KeepsBooks}
use kronos_stock.Ledger.Balance.{IsBalanced}
use kronos_stock.Ledger.Commands.{
  Command, open_account, account_event, decide, propose, review, order, order_event, fill,
  nav_snapshot, kill_switch_event, execute, committed,
}
use kronos_stock.Ledger.Conservation.{
  KeepsBooks-IsBalanced, append_fill-IsBalanced, execute-IsBalanced, empty_ledger-IsBalanced,
  execute-KeepsBooks, OnlyRecords,
}
use kronos_stock.Broker.Execute.{
  ExecutionPolicy, Execution, ExecutionResult, expected_fill, mark_of, snapshot_of, result_of,
  is_accepted, lacks_authority, book_execution, settle_order, execute_found, execute_order,
}
use kronos_stock.Broker.Calls.{Call, ledger_call, execution, IsBrokered, perform, run_calls}
use kronos_stock.Broker.Solvency.{
  IsSolvent, KeepsBooks-IsSolvent, create_account-IsSolvent, KeepsOthers, append_fill-KeepsOthers,
}

-- The books are in order and no account is overdrawn.
abbrev pub IsSettledLedger : Ledger → Type 0
IsSettledLedger l = IsBalanced l × IsSolvent l

snapshot_of-cash :
    (x : Execution) (o : PaperOrder) (l : Ledger)
    → IfOk
        (snapshot_of x o l)
        (λ s. (s.account_id ≡ o.account_id) × (s.cash_krw ≡ cash_balance l o.account_id))
unfolding snapshot_of
snapshot_of-cash x o l =
    let prior = latest_nav o.account_id l.nav_snapshots in
    let Q : NavSnapshot → Type 0 =
      λ s. (s.account_id ≡ o.account_id) × (s.cash_krw ≡ cash_balance l o.account_id) in
    after-IfOk Q (mark_of x.observation prior s005930 (position l o.account_id s005930)) _ λ a.
      after-IfOk Q (mark_of x.observation prior s000660 (position l o.account_id s000660)) _
        λ b. (refl, refl)

append_nav_snapshot-cash :
    (julianday : Timestamp → Option ℕ) (row : NavSnapshot) (l : Ledger)
    → IfOk (append_nav_snapshot julianday row l) (λ m. pos 0 ≤ℤ row.cash_krw)
unfolding append_nav_snapshot
append_nav_snapshot-cash julianday row l =
    elim (Bool-cases (ltb_ℤ row.cash_krw (pos 0) || ltb_ℤ row.position_value_krw (pos 0))) [
      | inl negative ↦ rw negative tt
      | inr passed ↦ IfOk_const (append_nav_snapshot julianday row l) (ground arith)
    ]

-- With the other accounts' cash kept, and the order's checked by the snapshot, nobody is overdrawn.
covered :
    (l booked : Ledger) (o : PaperOrder)
    → IsSolvent l
    → KeepsOthers l o.account_id booked
    → pos 0 ≤ℤ cash_balance booked o.account_id
    → IsSolvent booked
covered l booked o s others own a = elim (Bool-cases (str_eq o.account_id a)) [
  | inl same ↦
      (let equal : o.account_id ≡ a = ground (arith, eq_iff o.account_id a) in
        subst (λ b. pos 0 ≤ℤ cash_balance booked b) equal own)
  | inr apart ↦
      (let other : o.account_id ≢ a = ground (arith, eq_iff o.account_id a) in
        rw (others a other) (s a))
]

module _ (julianday : Timestamp → Option ℕ) (policy_sha256 : ExecutionPolicy → String) where
  book_execution-IsSettledLedger :
      (x : Execution) (o : PaperOrder) (l : Ledger)
      → fetch_row (λ r. r.order_id) x.order_id l.orders ≡ some o
      → IsSettledLedger l
      → IfOk (book_execution julianday policy_sha256 x o l) (λ r. IsSettledLedger r.0)
  unfolding book_execution expected_fill
  book_execution-IsSettledLedger x o l found (b, s) =
      let Q : Ledger × ExecutionResult → Type 0 = λ r. IsSettledLedger r.0 in
      let q = expected_fill policy_sha256 x o in
      >>=-IfOk (λ m. IsBalanced m × KeepsOthers l o.account_id m) Q (append_fill julianday q l) _
        (IfOk_both IsBalanced (KeepsOthers l o.account_id) (append_fill julianday q l)
          (append_fill-IsBalanced julianday q l b) (append_fill-KeepsOthers julianday q o l found))
        λ booked hb.
          >>=-IfOk _ Q (snapshot_of x o booked) _ (snapshot_of-cash x o booked) λ snapshot hs.
            >>=-IfOk (λ m. KeepsBooks booked m × (pos 0 ≤ℤ snapshot.cash_krw)) Q
              (append_nav_snapshot julianday snapshot booked) _
              (IfOk_both (KeepsBooks booked) (λ m. pos 0 ≤ℤ snapshot.cash_krw)
                (append_nav_snapshot julianday snapshot booked)
                (append_nav_snapshot-KeepsBooks julianday snapshot booked)
                (append_nav_snapshot-cash julianday snapshot booked))
              λ marked hm.
                after-IfOk Q
                  (or_raise (fetch_row (λ f. f.fill_id) x.execution_id marked.fills) unknown_row) _
                  λ stored. after-IfOk Q (result_of marked stored) _ λ result.
                    let own : pos 0 ≤ℤ cash_balance booked o.account_id =
                      subst (λ n. pos 0 ≤ℤ n) hs.1 hm.1 in
                    (
                      KeepsBooks-IsBalanced booked marked hm.0 hb.0,
                      KeepsBooks-IsSolvent booked marked hm.0 (covered l booked o s hb.1 own),
                    )

  behind_execution :
      {A : Type 0} (m : Result LedgerError A)
      (f : A → Result LedgerError (Ledger × ExecutionResult))
      → ((a : A) → IfOk (f a) (λ r. IsSettledLedger r.0))
      → IfOk (m >>= f) (λ r. IsSettledLedger r.0)
  behind_execution m f h = after-IfOk (λ r. IsSettledLedger r.0) m f h

  settle_order-IsSettledLedger :
      (x : Execution) (o : PaperOrder) (l : Ledger)
      → fetch_row (λ r. r.order_id) x.order_id l.orders ≡ some o
      → IsSettledLedger l
      → IfOk (settle_order julianday policy_sha256 x o l) (λ r. IsSettledLedger r.0)
  unfolding settle_order
  settle_order-IsSettledLedger x o l found settled =
      let Q : Ledger × ExecutionResult → Type 0 = λ r. IsSettledLedger r.0 in
      let expected = expected_fill policy_sha256 x o in
      let recorded = fetch_row (λ f. f.fill_id) x.execution_id l.fills in
      after-IfOk Q (raise_if (ltb expected.fill_price_krw 1) bad_shape) _ λ u₁.
        elim (Option-cases recorded) [
          | inl new ↦ rw new (
              after-IfOk Q (raise_if (not (is_accepted l x.order_id)) conflict) _ λ u₂.
                after-IfOk Q (raise_if (lacks_authority expected o l) bad_shape) _
                  λ u₃. book_execution-IsSettledLedger x o l found settled)
          | inr (existing, old) ↦ rw old (
              after-IfOk Q (raise_if (not (same_fill existing (fill_row expected o))) conflict) _
                λ u₂. after-IfOk Q (result_of l existing) _ λ result. settled)
        ]

  execute_found-IsSettledLedger :
      (x : Execution) (observed : Moment) (o : PaperOrder) (l : Ledger)
      → fetch_row (λ r. r.order_id) x.order_id l.orders ≡ some o
      → IsSettledLedger l
      → IfOk (execute_found julianday policy_sha256 x observed o l) (λ r. IsSettledLedger r.0)
  unfolding execute_found
  execute_found-IsSettledLedger x observed o l found settled =
      search (behind_execution, settle_order-IsSettledLedger x o l found settled) depth 12

  execute_order-IsSettledLedger :
      (x : Execution) (l : Ledger)
      → IsSettledLedger l
      → IfOk (execute_order julianday policy_sha256 x l) (λ r. IsSettledLedger r.0)
  unfolding execute_order
  execute_order-IsSettledLedger x l settled =
      let Q : Ledger × ExecutionResult → Type 0 = λ r. IsSettledLedger r.0 in
      let orders = fetch_row (λ o. o.order_id) x.order_id l.orders in
      after-IfOk Q (require_kst_iso x.executed_at) _ λ executed.
        after-IfOk Q (or_raise (aware x.observation.observed_at.reading) bad_time) _ λ observed.
          after-IfOk Q (raise_if (ltb executed.instant observed.instant) bad_time) _ λ u₁.
            >>=-IfOk (λ o. orders ≡ some o) Q (or_raise orders unknown_row) _
              (or_raise-IfOk orders unknown_row)
              λ o found. execute_found-IsSettledLedger x observed o l found settled

  recorded-IsSolvent :
      (c : Command) (l : Ledger)
      → OnlyRecords c
      → IsSolvent l
      → IfOk (execute julianday c l) IsSolvent
  recorded-IsSolvent c l only s =
      IfOk_map (KeepsBooks l) IsSolvent (execute julianday c l)
        (execute-KeepsBooks julianday c l only) (λ m k. KeepsBooks-IsSolvent l m k s)

  execute-IsSolvent :
      (c : Command) (l : Ledger)
      → IsBrokered (ledger_call c)
      → IsSolvent l
      → IfOk (execute julianday c l) IsSolvent
  unfolding execute
  execute-IsSolvent (open_account row) l brokered s = create_account-IsSolvent julianday row l s
  execute-IsSolvent (fill q) l brokered s = absurd brokered
  execute-IsSolvent (account_event row) l brokered s = recorded-IsSolvent (account_event row) l tt s
  execute-IsSolvent (decide row) l brokered s = recorded-IsSolvent (decide row) l tt s
  execute-IsSolvent (propose p d side n key model version at) l brokered s =
      recorded-IsSolvent (propose p d side n key model version at) l tt s
  execute-IsSolvent (review row) l brokered s = recorded-IsSolvent (review row) l tt s
  execute-IsSolvent (order i r key at) l brokered s = recorded-IsSolvent (order i r key at) l tt s
  execute-IsSolvent (order_event row) l brokered s = recorded-IsSolvent (order_event row) l tt s
  execute-IsSolvent (nav_snapshot row) l brokered s = recorded-IsSolvent (nav_snapshot row) l tt s
  execute-IsSolvent (kill_switch_event row) l brokered s =
      recorded-IsSolvent (kill_switch_event row) l tt s

  perform-IsSettledLedger :
      (c : Call) (l : Ledger)
      → IsBrokered c
      → IsSettledLedger l
      → IfOk (perform julianday policy_sha256 c l) IsSettledLedger
  unfolding perform
  perform-IsSettledLedger (execution x) l brokered settled =
      >>=-IfOk (λ r. IsSettledLedger r.0) IsSettledLedger
        (execute_order julianday policy_sha256 x l) _ (execute_order-IsSettledLedger x l settled)
        (λ r h. h)
  perform-IsSettledLedger (ledger_call c) l brokered (b, s) =
      IfOk_both IsBalanced IsSolvent (execute julianday c l) (execute-IsBalanced julianday c l b)
        (execute-IsSolvent c l brokered s)

  committed-IsSettledLedger :
      (l : Ledger) (m : Appended)
      → IsSettledLedger l
      → IfOk m IsSettledLedger
      → IsSettledLedger (committed l m)
  committed-IsSettledLedger l (ok m) settled h = h
  committed-IsSettledLedger l (err e) settled h = settled

  run_from-IsSettledLedger :
      (cs : List Call) (l : Ledger)
      → All IsBrokered cs
      → IsSettledLedger l
      → IsSettledLedger (run_calls julianday policy_sha256 cs l)
  unfolding run_calls
  run_from-IsSettledLedger [] l brokered settled = settled
  run_from-IsSettledLedger (c ∷ cs) l (first, rest) settled =
      run_from-IsSettledLedger cs (committed l (perform julianday policy_sha256 c l)) rest (
        committed-IsSettledLedger l (perform julianday policy_sha256 c l) settled
          (perform-IsSettledLedger c l first settled))

empty_ledger-IsSolvent : IsSolvent empty_ledger
unfolding cash_balance sum_ℤ
empty_ledger-IsSolvent a = omega arith

-- Whatever calls are made of a new ledger and of the broker, in whatever order and with whatever
-- arguments, failed ones being rolled back, if fills are booked by the broker's `execute_order`
-- only: the books are in order (cash is opening cash and the effect of the fills, positions are the
-- shares moved, and none is negative), and no account's cash is negative.
pub run_calls-IsSettledLedger :
    (julianday : Timestamp → Option ℕ) (policy_sha256 : ExecutionPolicy → String) (cs : List Call)
    → All IsBrokered cs
    → IsSettledLedger (run_calls julianday policy_sha256 cs empty_ledger)
run_calls-IsSettledLedger julianday policy_sha256 cs brokered =
    run_from-IsSettledLedger julianday policy_sha256 cs empty_ledger brokered
      (empty_ledger-IsBalanced, empty_ledger-IsSolvent)
