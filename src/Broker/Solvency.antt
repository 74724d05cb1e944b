-- ===== src/Broker/Solvency.antt =====
-- No account is overdrawn by what the broker executes.
use kronos_stock.Common.{
  ℕ, ◌≡◌, ◌≢◌, refl, subst, ◌∙◌, String, [], ◌∷◌, ◌++◌, Bool, false, arith, Option, none, some,
  Result, ok, or_raise, ◌>>=◌, IfOk, >>=-IfOk, IfOk_map, after-IfOk, or_raise-IfOk, if◌then◌else◌,
  str_eq, eq_iff, Bool-cases, inl, inr,
}
use kronos_stock.Common.Int.{pos, ◌≤ℤ◌, int_laws, sum_ℤ-append, sum_ℤ_one, +ℤ-zero}
use kronos_stock.Common.Time.{Timestamp}
use kronos_stock.Ledger.Records.{Account, PaperFill, PaperOrder, Ledger}
use kronos_stock.Ledger.Checks.{LedgerError, unknown_row, require_int, cash_balance, fetch_row}
use kronos_stock.Ledger.Append.{
  Appended, unless_replayed, insert_account_event, insert_order_event, deposit_of, creation_of,
  create_account,
}
use kronos_stock.Ledger.Fills.{
  FillRequest, append_fill, fill_order, insert_fill, fill_row, book_fill, filled_event,
}
use kronos_stock.Ledger.Books.{
  KeepsBooks, insert_account_event-KeepsBooks, insert_order_event-KeepsBooks,
}
use kronos_stock.Ledger.Balance.{cash_in, book_fill-cash}
use kronos_stock.Ledger.Conservation.{deposit_in}

-- No account has less than nothing.
abbrev pub IsSolvent : Ledger → Type 0
IsSolvent l = (a : String) → pos 0 ≤ℤ cash_balance l a

pub KeepsBooks-cash :
    (l m : Ledger) → KeepsBooks l m → (a : String) → cash_balance m a ≡ cash_balance l a
unfolding cash_balance
KeepsBooks-cash l m k a = rw (k.same_cash) refl

pub KeepsBooks-IsSolvent : (l m : Ledger) → KeepsBooks l m → IsSolvent l → IsSolvent m
KeepsBooks-IsSolvent l m k s a = rw (KeepsBooks-cash l m k a) (s a)

-- Chains whose last call is known.
module _ (Q : Ledger → Type 0) where
  behind_any :
      {A : Type 0} (m : Result LedgerError A) (f : A → Appended)
      → ((a : A) → IfOk (f a) Q)
      → IfOk (m >>= f) Q
  behind_any m f h = after-IfOk Q m f h

  replayed_any :
      (l : Ledger)
      → Q l
      → (replayed : Result LedgerError Bool) (insert : Appended) → IfOk insert Q
      → IfOk (unless_replayed replayed l insert) Q
  replayed_any l q replayed insert h =
      behind_any replayed (λ seen. if seen then ok l else insert)
        λ seen. elim (Bool-cases seen) [ inl replays ↦ rw replays q | inr inserts ↦ rw inserts h ]

credited :
    (row : Account) (m : Ledger)
    → IsSolvent m
    → IsSolvent (record m { cash_events = m.cash_events ++ (deposit_of row ∷ []) })
unfolding cash_balance
credited row m s a =
    rw
      (
        sum_ℤ-append (cash_in a) m.cash_events (deposit_of row ∷ []),
        sum_ℤ_one (cash_in a) (deposit_of row),
        deposit_in a row,
      )
      (omega (int_laws, s a))

opened-IsSolvent :
    (julianday : Timestamp → Option ℕ) (row : Account) (l : Ledger)
    → IsSolvent l
    → IfOk
        (insert_account_event julianday
            (creation_of row)
            (record l { accounts = l.accounts ++ (row ∷ []) })
          >>= λ m. ok (record m { cash_events = m.cash_events ++ (deposit_of row ∷ []) }))
        IsSolvent
unfolding cash_balance
opened-IsSolvent julianday row l s =
    let grown : Ledger = record l { accounts = l.accounts ++ (row ∷ []) } in
    >>=-IfOk (KeepsBooks grown) IsSolvent (insert_account_event julianday (creation_of row) grown)
      (λ m. ok (record m { cash_events = m.cash_events ++ (deposit_of row ∷ []) }))
      (insert_account_event-KeepsBooks julianday (creation_of row) grown)
      (λ m k. credited row m (KeepsBooks-IsSolvent grown m k s))

pub create_account-IsSolvent :
    (julianday : Timestamp → Option ℕ) (row : Account) (l : Ledger)
    → IsSolvent l
    → IfOk (create_account julianday row l) IsSolvent
unfolding create_account
create_account-IsSolvent julianday row l s =
    search (behind_any, replayed_any IsSolvent l s, opened-IsSolvent julianday row l s) depth 12

-- A fill moves the cash of its own account only.
module _ (l : Ledger) (account_id : String) where
  abbrev pub KeepsOthers : Ledger → Type 0
  KeepsOthers m = (a : String) → account_id ≢ a → cash_balance m a ≡ cash_balance l a

  book_fill-KeepsOthers : (f : PaperFill) → f.account_id ≡ account_id → KeepsOthers (book_fill f l)
  book_fill-KeepsOthers f same a other =
      let apart : str_eq f.account_id a ≡ false = ground (arith, eq_iff f.account_id a) in
      rw (book_fill-cash f l a, apart) (+ℤ-zero (cash_balance l a))

  filled_others :
      (julianday : Timestamp → Option ℕ) (f : PaperFill)
      → f.account_id ≡ account_id
      → IfOk (insert_order_event julianday (filled_event f l) (book_fill f l)) KeepsOthers
  filled_others julianday f same =
      IfOk_map (KeepsBooks (book_fill f l)) KeepsOthers
        (insert_order_event julianday (filled_event f l) (book_fill f l))
        (insert_order_event-KeepsBooks julianday (filled_event f l) (book_fill f l))
        λ m k a other. KeepsBooks-cash (book_fill f l) m k a ∙ book_fill-KeepsOthers f same a other

  insert_fill-KeepsOthers :
      (julianday : Timestamp → Option ℕ) (f : PaperFill) (o : PaperOrder)
      → f.account_id ≡ account_id
      → IfOk (insert_fill julianday f o l) KeepsOthers
  unfolding insert_fill
  insert_fill-KeepsOthers julianday f o same =
      search (behind_any, filled_others julianday f same) depth 8

fill_order-KeepsOthers :
    (julianday : Timestamp → Option ℕ) (q : FillRequest) (o : PaperOrder) (l : Ledger)
    → IfOk (fill_order julianday q o l) (KeepsOthers l o.account_id)
unfolding fill_order fill_row
fill_order-KeepsOthers julianday q o l =
    search
      (
        behind_any,
        replayed_any (KeepsOthers l o.account_id) l (λ a other. refl),
        insert_fill-KeepsOthers l o.account_id julianday (fill_row q o) o refl,
      )
      depth 16

pub append_fill-KeepsOthers :
    (julianday : Timestamp → Option ℕ) (q : FillRequest) (o : PaperOrder) (l : Ledger)
    → fetch_row (λ r. r.order_id) q.order_id l.orders ≡ some o
    → IfOk (append_fill julianday q l) (KeepsOthers l o.account_id)
unfolding append_fill
append_fill-KeepsOthers julianday q o l found =
    let raw : ℕ = elim q.raw_reference_price_krw [ none ↦ q.fill_price_krw | some p ↦ p ] in
    let Q = KeepsOthers l o.account_id in
    let fetched = fetch_row (λ r. r.order_id) q.order_id l.orders in
    after-IfOk Q (require_int raw 1) _ λ u₁. after-IfOk Q (require_int q.fill_price_krw 1) _ λ u₂.
      after-IfOk Q (require_int q.quantity 1) _ λ u₃.
        >>=-IfOk (λ p. fetched ≡ some p) Q (or_raise fetched unknown_row) _
          (or_raise-IfOk fetched unknown_row)
          λ p e.
            let same : o ≡ p = cc (found, e) in
            subst (λ r. IfOk (fill_order julianday q r l) Q) same
              (fill_order-KeepsOthers julianday q o l)
