-- ===== src/Ledger/Fills.antt =====
-- `append_fill` of paper_trading/ledger.py, with the triggers of `paper_fills` that check a fill and
-- emit its cash, position and order events.
use Prim.Native.String.{◌++◌ as str_append}
use kronos_stock.Common.{
  ℕ, ◌+◌, ◌*◌, String, List, [], ◌∷◌, ◌++◌, Bool, true, false, not, ◌&&◌, ◌||◌, ◌==◌, Option, none,
  some, raise_if, or_raise, ◌>>=◌, ◌>>◌, if◌then◌else◌, any, str_eq, ltb,
}
use kronos_stock.Common.Int.{pos, ◌-ℤ◌, ltb_ℤ}
use kronos_stock.Common.Time.{Timestamp}
use kronos_stock.Symbols.{buy, sell}
use kronos_stock.Ledger.Records.{
  PaperOrder, PaperFill, OrderEvent, accepted, filled, CashEvent, fill_debit, fill_credit,
  fee as fee_event, tax as tax_event, PositionEvent, Ledger,
}
use kronos_stock.Ledger.Same.{same_fill}
use kronos_stock.Ledger.Checks.{
  unknown_row, partial_fill, conflict, aborted, require_tz_iso, require_int, require_sha256,
  fetch_row, is_replay, has_value, next_seq, is_ended, cash_balance, position,
}
use kronos_stock.Ledger.Append.{Appended, unless_replayed, unread, precedes, insert_order_event}

-- The arguments of `append_fill`; a missing reference price is the fill price, a missing policy the
-- observation's digest.
pub record FillRequest : Type 0 where
  pub fill_id : String
  pub order_id : String
  pub fill_price_krw : ℕ
  pub quantity : ℕ
  pub fee_krw : ℕ
  pub tax_krw : ℕ
  pub slippage_krw : ℕ
  pub observed_at : Timestamp
  pub observation_sha256 : String
  pub filled_at : Timestamp
  pub raw_reference_price_krw : Option ℕ
  pub fee_bps : ℕ
  pub tax_bps : ℕ
  pub slippage_bps : ℕ
  pub execution_policy_sha256 : Option String

unfoldable pub fill_row : FillRequest → PaperOrder → PaperFill
fill_row q o = record {
  fill_id = q.fill_id;
  order_id = q.order_id;
  account_id = o.account_id;
  symbol = o.symbol;
  side = o.side;
  raw_reference_price_krw = elim q.raw_reference_price_krw [ none ↦ q.fill_price_krw | some p ↦ p ];
  fill_price_krw = q.fill_price_krw;
  quantity = q.quantity;
  fee_krw = q.fee_krw;
  tax_krw = q.tax_krw;
  slippage_krw = q.slippage_krw;
  fee_bps = q.fee_bps;
  tax_bps = q.tax_bps;
  slippage_bps = q.slippage_bps;
  execution_policy_sha256 = elim q.execution_policy_sha256 [
    | none ↦ q.observation_sha256
    | some s ↦ s
  ];
  observed_at = q.observed_at;
  observation_sha256 = q.observation_sha256;
  filled_at = q.filled_at;
}

-- The cash events of a fill: the trade, the fee if there is one, the tax if there is one.
unfoldable pub trade_events : PaperFill → List CashEvent
trade_events f =
    record {
      cash_event_id = str_append f.fill_id ":cash:trade";
      account_id = f.account_id;
      fill_id = some f.fill_id;
      event_type = elim f.side [ buy ↦ fill_debit | sell ↦ fill_credit ];
      amount_krw = elim f.side [
        | buy ↦ pos 0 -ℤ pos (f.fill_price_krw * f.quantity)
        | sell ↦ pos (f.fill_price_krw * f.quantity)
      ];
      event_at = f.filled_at;
    }
    ∷ []

unfoldable pub fee_events : PaperFill → List CashEvent
fee_events f =
    if ltb 0 f.fee_krw
    then (record {
      cash_event_id = str_append f.fill_id ":cash:fee";
      account_id = f.account_id;
      fill_id = some f.fill_id;
      event_type = fee_event;
      amount_krw = pos 0 -ℤ pos f.fee_krw;
      event_at = f.filled_at;
    }
        ∷ [])
    else []

unfoldable pub tax_events : PaperFill → List CashEvent
tax_events f =
    if ltb 0 f.tax_krw
    then (record {
      cash_event_id = str_append f.fill_id ":cash:tax";
      account_id = f.account_id;
      fill_id = some f.fill_id;
      event_type = tax_event;
      amount_krw = pos 0 -ℤ pos f.tax_krw;
      event_at = f.filled_at;
    }
        ∷ [])
    else []

unfoldable pub position_event : PaperFill → PositionEvent
position_event f = record {
  position_event_id = str_append f.fill_id ":pos";
  account_id = f.account_id;
  symbol = f.symbol;
  fill_id = f.fill_id;
  quantity_delta = elim f.side [ buy ↦ pos f.quantity | sell ↦ pos 0 -ℤ pos f.quantity ];
  event_at = f.filled_at;
}

-- The fill and what its trigger emits but for the order's event.
unfoldable pub book_fill : PaperFill → Ledger → Ledger
unfolding trade_events fee_events tax_events position_event
book_fill f l = record l {
  fills = l.fills ++ (f ∷ []);
  cash_events = l.cash_events ++ (trade_events f ++ (fee_events f ++ tax_events f));
  position_events = l.position_events ++ (position_event f ∷ []);
}

-- The event FILLED of a fill's order.
unfoldable pub filled_event : PaperFill → Ledger → OrderEvent
unfolding next_seq
filled_event f l = record {
  order_event_id = str_append f.order_id ":evt:filled";
  order_id = f.order_id;
  seq = next_seq (λ e. e.order_id) (λ e. e.seq) f.order_id l.order_events;
  event_type = filled;
  event_at = f.filled_at;
}

-- `trg_paper_fills_buy_requires_cash` and `trg_paper_fills_sell_requires_shares`
unfoldable pub lacks_means : PaperFill → Ledger → Bool
unfolding cash_balance position
lacks_means f l = elim f.side [
  | buy ↦
      ltb_ℤ (cash_balance l f.account_id)
        (pos (f.fill_price_krw * f.quantity + f.fee_krw + f.tax_krw))
  | sell ↦ ltb_ℤ (position l f.account_id f.symbol) (pos f.quantity)
]

-- `trg_paper_fills_require_accepted_order`
unfoldable pub lacks_order : PaperFill → Ledger → Bool
unfolding is_ended
lacks_order f l =
    not (
      any (λ e. str_eq e.order_id f.order_id && elim e.event_type [ accepted ↦ true | _ ↦ false ])
        l.order_events)
    || is_ended f.order_id l.order_events

module _ (julianday : Timestamp → Option ℕ) where
  -- The row of `paper_fills`, by its constraints and triggers.
  unfoldable pub insert_fill : PaperFill → PaperOrder → Ledger → Appended
  unfolding precedes lacks_means lacks_order book_fill filled_event insert_order_event
  insert_fill f o l = do
    raise_if
        (unread julianday f.observed_at
          || unread julianday f.filled_at
          || precedes julianday f.filled_at f.observed_at)
        aborted
    raise_if (lacks_order f l) aborted
    raise_if (not (precedes julianday o.created_at f.observed_at)) aborted
    raise_if (lacks_means f l) aborted
    insert_order_event julianday (filled_event f l) (book_fill f l)

  -- `append_fill` from the order on
  unfoldable pub fill_order : FillRequest → PaperOrder → Ledger → Appended
  unfolding fill_row insert_fill is_replay require_tz_iso require_sha256
  fill_order q order l = do
    raise_if (not (q.quantity == order.quantity)) partial_fill
    let row = fill_row q order
    require_sha256 row.execution_policy_sha256
    observed ← require_tz_iso q.observed_at
    require_sha256 q.observation_sha256
    done ← require_tz_iso q.filled_at
    unless_replayed (is_replay (λ f. f.fill_id) same_fill row l.fills) l (do
      raise_if (has_value (λ f. f.order_id) q.order_id l.fills) conflict
      insert_fill row order l)

  -- `append_fill`
  unfoldable pub append_fill : FillRequest → Ledger → Appended
  unfolding fill_order fetch_row require_int
  append_fill q l = do
    require_int (elim q.raw_reference_price_krw [ none ↦ q.fill_price_krw | some p ↦ p ]) 1
    require_int q.fill_price_krw 1
    require_int q.quantity 1
    order ← or_raise (fetch_row (λ o. o.order_id) q.order_id l.orders) unknown_row
    fill_order q order l
