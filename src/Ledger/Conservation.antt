-- ===== src/Ledger/Conservation.antt =====
-- Conservation of cash and shares over all calls of the ledger.
use kronos_stock.Common.{
  ℕ, ◌+◌, ◌≡◌, refl, sym, String, List, [], ◌∷◌, ◌++◌, Bool, arith, Option, Result, ok, err,
  raise_if, ◌>>=◌, ◌>>◌, IfOk, >>=-IfOk, IfOk_map, after-IfOk, raise_if-IfOk_passed, if◌then◌else◌,
  str_eq, sum_by, sum_by-append, Bool-cases, inl, inr,
}
use kronos_stock.Common.Int.{ℤ, pos, ◌+ℤ◌, int_laws, sum_ℤ, sum_ℤ-append, sum_ℤ_one, +ℤ-zero}
use kronos_stock.Common.Time.{Timestamp}
use kronos_stock.Ledger.Records.{Account, PaperFill, PaperOrder, Ledger, empty_ledger}
use kronos_stock.Ledger.Checks.{LedgerError, aborted, cash_balance, position}
use kronos_stock.Ledger.Append.{
  Appended, unless_replayed, insert_account_event, insert_order_event, deposit_of, creation_of,
  create_account,
}
use kronos_stock.Ledger.Fills.{
  FillRequest, append_fill, fill_order, insert_fill, lacks_means, book_fill, filled_event,
}
use kronos_stock.Ledger.Books.{
  KeepsBooks, insert_account_event-KeepsBooks, insert_order_event-KeepsBooks,
  append_account_event-KeepsBooks, append_agent_decision-KeepsBooks,
  append_order_proposal-KeepsBooks, append_risk_review-KeepsBooks, append_order-KeepsBooks,
  append_order_event-KeepsBooks, append_nav_snapshot-KeepsBooks,
  append_kill_switch_event-KeepsBooks,
}
use kronos_stock.Ledger.Balance.{IsBalanced, opening_cash, fill_cash, cash_in, book_fill-IsBalanced}
use kronos_stock.Ledger.Commands.{
  Command, open_account, account_event, decide, propose, review, order, order_event, fill,
  nav_snapshot, kill_switch_event, execute, committed, run_commands,
}

-- The call neither opens an account nor appends a fill.
abbrev pub OnlyRecords : Command → Type 0
OnlyRecords (open_account row) = ⊥
OnlyRecords (fill q) = ⊥
OnlyRecords _ = Unit

pub KeepsBooks-IsBalanced : (l m : Ledger) → KeepsBooks l m → IsBalanced l → IsBalanced m
unfolding cash_balance position
KeepsBooks-IsBalanced l m k b = record {
  cash_settled = λ a. rw (k.same_cash, k.same_accounts, k.same_fills) (b.cash_settled a);
  shares_settled = λ a s. rw (k.same_positions, k.same_fills) (b.shares_settled a s);
  shares_nonneg = λ a s. rw (k.same_positions) (b.shares_nonneg a s);
}

-- A deposit on either side of the sum.
pub deposit_in :
    (a : String) (row : Account) → cash_in a (deposit_of row) ≡ pos (opening_cash a row)
deposit_in a row = elim (Bool-cases (str_eq row.account_id a)) [
  | inl same ↦ rw same refl
  | inr other ↦ rw other refl
]

moved_deposit : (n k : ℕ) (s : ℤ) → pos n +ℤ s +ℤ pos k ≡ pos (n + (k + 0)) +ℤ s
moved_deposit n k s = omega int_laws

-- Opening an account adds its opening cash.
deposited :
    (row : Account) (l m : Ledger)
    → KeepsBooks (record l { accounts = l.accounts ++ (row ∷ []) }) m
    → IsBalanced l
    → IsBalanced (record m { cash_events = m.cash_events ++ (deposit_of row ∷ []) })
unfolding cash_balance position
deposited row l m k b = record {
  cash_settled = λ a.
      (rw
        (
          k.same_cash,
          k.same_accounts,
          k.same_fills,
          sum_ℤ-append (cash_in a) l.cash_events (deposit_of row ∷ []),
          sum_ℤ_one (cash_in a) (deposit_of row),
          sum_by-append (opening_cash a) l.accounts (row ∷ []),
          b.cash_settled a,
          deposit_in a row,
        )
        (moved_deposit (sum_by (opening_cash a) l.accounts) (opening_cash a row)
          (sum_ℤ (fill_cash a) l.fills)));
  shares_settled = λ a s. rw (k.same_positions, k.same_fills) (b.shares_settled a s);
  shares_nonneg = λ a s. rw (k.same_positions) (b.shares_nonneg a s);
}

behind-IsBalanced :
    {A : Type 0} (m : Result LedgerError A) (f : A → Appended)
    → ((a : A) → IfOk (f a) IsBalanced)
    → IfOk (m >>= f) IsBalanced
behind-IsBalanced m f h = after-IfOk IsBalanced m f h

unless_replayed-IsBalanced :
    (l : Ledger)
    → IsBalanced l
    → (replayed : Result LedgerError Bool) (insert : Appended) → IfOk insert IsBalanced
    → IfOk (unless_replayed replayed l insert) IsBalanced
unless_replayed-IsBalanced l b replayed insert h =
    behind-IsBalanced replayed (λ seen. if seen then ok l else insert)
      λ seen. elim (Bool-cases seen) [ inl replays ↦ rw replays b | inr inserts ↦ rw inserts h ]

opened-IsBalanced :
    (julianday : Timestamp → Option ℕ) (row : Account) (l : Ledger)
    → IsBalanced l
    → IfOk
        (insert_account_event julianday
            (creation_of row)
            (record l { accounts = l.accounts ++ (row ∷ []) })
          >>= λ m. ok (record m { cash_events = m.cash_events ++ (deposit_of row ∷ []) }))
        IsBalanced
opened-IsBalanced julianday row l b =
    let grown : Ledger = record l { accounts = l.accounts ++ (row ∷ []) } in
    >>=-IfOk (KeepsBooks grown) IsBalanced (insert_account_event julianday (creation_of row) grown)
      (λ m. ok (record m { cash_events = m.cash_events ++ (deposit_of row ∷ []) }))
      (insert_account_event-KeepsBooks julianday (creation_of row) grown)
      (λ m k. deposited row l m k b)

create_account-IsBalanced :
    (julianday : Timestamp → Option ℕ) (row : Account) (l : Ledger)
    → IsBalanced l
    → IfOk (create_account julianday row l) IsBalanced
unfolding create_account
create_account-IsBalanced julianday row l b =
    search (behind-IsBalanced, unless_replayed-IsBalanced l b, opened-IsBalanced julianday row l b)
      depth 12

means_checked :
    (julianday : Timestamp → Option ℕ) (l : Ledger)
    → IsBalanced l
    → (f : PaperFill)
    → IfOk
        (raise_if (lacks_means f l) aborted
          >> insert_order_event julianday (filled_event f l) (book_fill f l))
        IsBalanced
means_checked julianday l b f =
    raise_if-IfOk_passed IsBalanced (lacks_means f l) aborted
      (insert_order_event julianday (filled_event f l) (book_fill f l))
      λ means.
        IfOk_map (KeepsBooks (book_fill f l)) IsBalanced
          (insert_order_event julianday (filled_event f l) (book_fill f l))
          (insert_order_event-KeepsBooks julianday (filled_event f l) (book_fill f l))
          (λ m k. KeepsBooks-IsBalanced (book_fill f l) m k (book_fill-IsBalanced f l means b))

insert_fill-IsBalanced :
    (julianday : Timestamp → Option ℕ) (l : Ledger)
    → IsBalanced l
    → (f : PaperFill) (o : PaperOrder) → IfOk (insert_fill julianday f o l) IsBalanced
unfolding insert_fill
insert_fill-IsBalanced julianday l b f o =
    search (behind-IsBalanced, means_checked julianday l b) depth 8

fill_order-IsBalanced :
    (julianday : Timestamp → Option ℕ) (l : Ledger)
    → IsBalanced l
    → (q : FillRequest) (o : PaperOrder) → IfOk (fill_order julianday q o l) IsBalanced
unfolding fill_order
fill_order-IsBalanced julianday l b q o =
    search (behind-IsBalanced, unless_replayed-IsBalanced l b, insert_fill-IsBalanced julianday l b)
      depth 16

pub append_fill-IsBalanced :
    (julianday : Timestamp → Option ℕ) (q : FillRequest) (l : Ledger)
    → IsBalanced l
    → IfOk (append_fill julianday q l) IsBalanced
unfolding append_fill
append_fill-IsBalanced julianday q l b =
    search (behind-IsBalanced, fill_order-IsBalanced julianday l b) depth 12

module _ (julianday : Timestamp → Option ℕ) where
  kept-IsBalanced :
      (l : Ledger) → IsBalanced l → (m : Appended) → IfOk m (KeepsBooks l) → IfOk m IsBalanced
  kept-IsBalanced l b m h =
      IfOk_map (KeepsBooks l) IsBalanced m h (λ n k. KeepsBooks-IsBalanced l n k b)

  pub execute-KeepsBooks :
      (c : Command) (l : Ledger) → OnlyRecords c → IfOk (execute julianday c l) (KeepsBooks l)
  unfolding execute
  execute-KeepsBooks (account_event row) l o = append_account_event-KeepsBooks julianday row l
  execute-KeepsBooks (decide row) l o = append_agent_decision-KeepsBooks julianday row l
  execute-KeepsBooks (propose p d side n key model version at) l o =
      append_order_proposal-KeepsBooks julianday p d side n key model version at l
  execute-KeepsBooks (review row) l o = append_risk_review-KeepsBooks julianday row l
  execute-KeepsBooks (order i r key at) l o = append_order-KeepsBooks julianday i r key at l
  execute-KeepsBooks (order_event row) l o = append_order_event-KeepsBooks julianday row l
  execute-KeepsBooks (nav_snapshot row) l o = append_nav_snapshot-KeepsBooks julianday row l
  execute-KeepsBooks (kill_switch_event row) l o =
      append_kill_switch_event-KeepsBooks julianday row l
  execute-KeepsBooks (open_account row) l o = absurd o
  execute-KeepsBooks (fill q) l o = absurd o

  pub execute-IsBalanced :
      (c : Command) (l : Ledger) → IsBalanced l → IfOk (execute julianday c l) IsBalanced
  unfolding execute
  execute-IsBalanced (open_account row) l b = create_account-IsBalanced julianday row l b
  execute-IsBalanced (account_event row) l b =
      kept-IsBalanced l b (execute julianday (account_event row) l)
        (append_account_event-KeepsBooks julianday row l)
  execute-IsBalanced (decide row) l b =
      kept-IsBalanced l b (execute julianday (decide row) l)
        (append_agent_decision-KeepsBooks julianday row l)
  execute-IsBalanced (propose p d side n key model version at) l b =
      kept-IsBalanced l b (execute julianday (propose p d side n key model version at) l)
        (append_order_proposal-KeepsBooks julianday p d side n key model version at l)
  execute-IsBalanced (review row) l b =
      kept-IsBalanced l b (execute julianday (review row) l)
        (append_risk_review-KeepsBooks julianday row l)
  execute-IsBalanced (order o r key at) l b =
      kept-IsBalanced l b (execute julianday (order o r key at) l)
        (append_order-KeepsBooks julianday o r key at l)
  execute-IsBalanced (order_event row) l b =
      kept-IsBalanced l b (execute julianday (order_event row) l)
        (append_order_event-KeepsBooks julianday row l)
  execute-IsBalanced (fill q) l b = append_fill-IsBalanced julianday q l b
  execute-IsBalanced (nav_snapshot row) l b =
      kept-IsBalanced l b (execute julianday (nav_snapshot row) l)
        (append_nav_snapshot-KeepsBooks julianday row l)
  execute-IsBalanced (kill_switch_event row) l b =
      kept-IsBalanced l b (execute julianday (kill_switch_event row) l)
        (append_kill_switch_event-KeepsBooks julianday row l)

  committed-IsBalanced :
      (l : Ledger) (m : Appended) → IsBalanced l → IfOk m IsBalanced → IsBalanced (committed l m)
  committed-IsBalanced l (ok m) b h = h
  committed-IsBalanced l (err e) b h = b

  run_from-IsBalanced :
      (cs : List Command) (l : Ledger) → IsBalanced l → IsBalanced (run_commands julianday cs l)
  unfolding run_commands
  run_from-IsBalanced [] l b = b
  run_from-IsBalanced (c ∷ cs) l b =
      run_from-IsBalanced cs (committed l (execute julianday c l))
        (committed-IsBalanced l (execute julianday c l) b (execute-IsBalanced c l b))

pub empty_ledger-IsBalanced : IsBalanced empty_ledger
unfolding cash_balance position sum_ℤ
empty_ledger-IsBalanced = record {
  cash_settled = λ a. sym (+ℤ-zero (pos 0));
  shares_settled = λ a s. refl;
  shares_nonneg = λ a s. omega arith;
}

-- Whatever calls are made of a new ledger's write operations, in whatever order and with whatever
-- arguments, failed ones being rolled back: the derived cash of every account is its opening cash
-- and the effect of its fills, which is price times quantity, fee and tax, each counted once; its
-- derived position in each symbol is the shares its fills bought less those they sold; and no
-- position is negative.
pub run_commands-IsBalanced :
    (julianday : Timestamp → Option ℕ) (cs : List Command)
    → IsBalanced (run_commands julianday cs empty_ledger)
run_commands-IsBalanced julianday cs =
    run_from-IsBalanced julianday cs empty_ledger empty_ledger-IsBalanced
