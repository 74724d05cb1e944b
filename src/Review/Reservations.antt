-- ===== src/Review/Reservations.antt =====
-- What other accepted reviews hold back, and what the day has used: `review_and_persist` of
-- strategy/paper_risk.py.
use kronos_stock.Common.{
  ℕ, ◌+◌, ◌*◌, String, List, [], ◌∷◌, Bool, true, false, not, ◌||◌, ◌==◌, Option, none, some,
  Result, ok, raise_if, or_raise, ◌>>=◌, ◌>>◌, if◌then◌else◌, str_eq, ltb,
}
use kronos_stock.Common.Int.{ℤ, pos, ◌+ℤ◌, ◌-ℤ◌, ltb_ℤ}
use kronos_stock.Common.Time.{Timestamp}
use kronos_stock.Symbols.{PerSymbol, get, put, Side, buy, sell, Symbol}
use kronos_stock.Ledger.Records.{Ledger, OrderEvent, OrderEventType, accepted}
use kronos_stock.Ledger.Checks.{fetch_row, latest_row}
use kronos_stock.Review.Records.{ReviewError, inconsistent, review_time}
use kronos_stock.Review.Gates.{Joined}

-- `effective_cash`, `effective_holdings`, `effective_position_value` and `pending_without_order`
pub record Effective : Type 0 where
  pub cash : ℤ
  pub holdings : PerSymbol ℤ
  pub position_value : ℤ
  pub pending : ℕ

-- The number of an order's events.
abbrev count_events : String → List OrderEvent → ℕ
count_events order_id [] = 0
count_events order_id (e ∷ es) =
    (if str_eq e.order_id order_id then 1 else 0) + count_events order_id es

abbrev expected_seq : OrderEventType → ℕ
expected_seq accepted = 1
expected_seq _ = 2

abbrev is_open : OrderEventType → Bool
is_open accepted = true
is_open _ = false

-- The review has an order, or none; whether the order, if it is there, is still open.
unfoldable pub order_open : Ledger → String → Result ReviewError (Option Bool)
unfolding fetch_row latest_row
order_open l review_id = elim (fetch_row (λ o. o.review_id) review_id l.orders) [
  | none ↦ ok none
  | some o ↦ do
    e ← or_raise (latest_row (λ e. e.order_id) (λ e. e.seq) o.order_id l.order_events) inconsistent
    raise_if
        (not (e.seq == count_events o.order_id l.order_events)
          || not (e.seq == expected_seq e.event_type))
        inconsistent
    ok (some (is_open e.event_type))
]

-- A review that is still to be executed holds back its cash or its shares.
unfoldable pub hold_back : Side → Symbol → ℕ → ℕ → Effective → Result ReviewError Effective
hold_back buy symbol quantity price s = ok (record s {
  cash = s.cash -ℤ pos (quantity * price);
  holdings = put s.holdings symbol (get s.holdings symbol +ℤ pos quantity);
  position_value = s.position_value +ℤ pos (quantity * price);
})
hold_back sell symbol quantity price s =
    let remaining = get s.holdings symbol -ℤ pos quantity in
    do
      raise_if (ltb_ℤ remaining (pos 0)) inconsistent
      ok (record s { holdings = put s.holdings symbol remaining })

abbrev pub positive : Option ℕ → Option ℕ
positive none = none
positive (some n) = if ltb n 1 then none else some n

-- The reservation by the state of the order: without an order, and dated to the session, it counts as
-- an order of the day too; an order that is closed holds nothing back.
unfoldable pub apply_state :
    Option Bool → Bool → Joined → ℕ → ℕ → Effective → Result ReviewError Effective
unfolding hold_back
apply_state none today j quantity price s =
    hold_back j.proposal.side j.proposal.symbol quantity price
      (if today then record s { pending = s.pending + 1 } else s)
apply_state (some true) today j quantity price s =
    hold_back j.proposal.side j.proposal.symbol quantity price s
apply_state (some false) today j quantity price s = ok s

-- The step for one accepted review.
unfoldable pub reserve : Ledger → String → Joined → Effective → Result ReviewError Effective
unfolding order_open apply_state review_time
reserve l session_id j s = do
  decided ← review_time j.decision.created_at
  reviewed ← review_time j.review.reviewed_at
  quantity ← or_raise (positive j.review.approved_quantity) inconsistent
  price ← or_raise (positive j.review.reference_price_krw) inconsistent
  state ← order_open l j.review.review_id
  apply_state state (str_eq decided.date session_id) j quantity price s

-- The loop over the accepted reviews.
unfoldable pub reserve_all :
    Ledger → String → List Joined → Effective → Result ReviewError Effective
unfolding reserve
reserve_all l session_id [] s = ok s
reserve_all l session_id (j ∷ js) s = do
  s' ← reserve l session_id j s
  reserve_all l session_id js s'

-- The rows of the account that are dated to the session.
unfoldable pub count_dated :
    {A : Type 0} → (A → String) → (A → Timestamp) → String → String → List A → Result ReviewError ℕ
unfolding review_time
count_dated account_of time_of account_id session_id [] = ok 0
count_dated account_of time_of account_id session_id (x ∷ xs) =
    let rest = count_dated account_of time_of account_id session_id xs in
    if str_eq (account_of x) account_id
    then (do
      time ← review_time (time_of x)
      n ← rest
      ok ((if str_eq time.date session_id then 1 else 0) + n))
    else rest
