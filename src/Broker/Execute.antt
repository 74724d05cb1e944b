-- ===== src/Broker/Execute.antt =====
-- `ExecutionPolicy`, `MarketObservation` and `execute_order` of strategy/paper_broker.py. The digest
-- of a policy is a parameter. The hook of `execute_order`, with which tests provoke failures, is left
-- out: a hook that raises rolls the call back, like any error.
use Prim.Native.String.{String, ◌++◌ as str_append}
use kronos_stock.Common.{
  ℕ, zero, suc, ◌+◌, ◌-◌, ◌*◌, ◌/◌, Bool, true, false, not, ◌||◌, ◌==◌, Option, none, some, Result,
  ok, err, raise_if, or_raise, ◌>>=◌, ◌>>◌, if◌then◌else◌, str_eq, ltb, leb,
}
use kronos_stock.Common.Int.{ℤ, pos, ◌+ℤ◌, ltb_ℤ}
use kronos_stock.Common.Time.{Moment, Timestamp, aware}
use kronos_stock.Symbols.{PerSymbol, get, Symbol, s005930, s000660, same_symbol, Side, buy, sell}
use kronos_stock.Ledger.Records.{PaperOrder, PaperFill, accepted, Mark, NavSnapshot, Ledger}
use kronos_stock.Ledger.Same.{same_fill, same_int}
use kronos_stock.Ledger.Checks.{
  LedgerError, bad_time, bad_int, bad_shape, unknown_row, conflict, require_kst_iso, require_int,
  require_sha256, fetch_row, cash_balance, position, order_state,
}
use kronos_stock.Ledger.Fills.{FillRequest, fill_row, append_fill}
use kronos_stock.Ledger.Nav.{latest_nav, marked_value, append_nav_snapshot}

-- `_ceil_div`, by ten thousand
unfoldable pub ceil_div : ℕ → ℕ → ℕ
ceil_div value divisor = (value + divisor - 1) / divisor

pub record ExecutionPolicy : Type 0 where
  pub fee_bps : ℕ
  pub sell_tax_bps : ℕ
  pub slippage_bps : ℕ

-- `ExecutionPolicy.__post_init__`
unfoldable pub make_policy : ExecutionPolicy → Result LedgerError ExecutionPolicy
make_policy p = do
  raise_if (ltb 10_000 p.fee_bps) bad_int
  raise_if (ltb 10_000 p.sell_tax_bps) bad_int
  raise_if (ltb 10_000 p.slippage_bps) bad_int
  ok p

pub record MarketObservation : Type 0 where
  pub symbol : Symbol
  pub reference_price_krw : ℕ
  pub observed_at : Timestamp
  pub source_sha256 : String

-- `MarketObservation.__post_init__`
unfoldable pub make_observation : MarketObservation → Result LedgerError MarketObservation
unfolding require_int require_kst_iso require_sha256
make_observation o = do
  require_int o.reference_price_krw 1
  observed ← require_kst_iso o.observed_at
  require_sha256 o.source_sha256
  ok o

pub record ExecutionResult : Type 0 where
  pub execution_id : String
  pub order_id : String
  pub raw_reference_price_krw : ℕ
  pub fill_price_krw : ℕ
  pub quantity : ℕ
  pub fee_krw : ℕ
  pub tax_krw : ℕ
  pub slippage_krw : ℕ
  pub cash_krw : ℤ
  pub position_quantity : ℤ
  pub nav_krw : ℤ

-- `executed_at[:10]`
unfoldable pub take_text : ℕ → String → String
take_text zero s = ""
take_text (suc n) String.[] = ""
take_text (suc n) (String.◌∷◌ c s) = String.◌∷◌ c (take_text n s)

-- A mark of a stored snapshot fails a check of `_result`.
unfoldable pub malformed_mark : Option Mark → Bool
unfolding require_int require_sha256 require_kst_iso
malformed_mark none = false
malformed_mark (some m) =
    ltb_ℤ m.quantity (pos 1)
    || ltb m.price_krw 1
    || elim (require_sha256 m.feature_snapshot_sha256) [ ok u ↦ false | err e ↦ true ]
    || elim (require_kst_iso m.observed_at) [ ok t ↦ false | err e ↦ true ]

-- `marks.get(fill["symbol"], {}).get("quantity", 0)`
unfoldable pub marked_quantity : Option Mark → ℤ
marked_quantity none = pos 0
marked_quantity (some m) = m.quantity

-- `_result`
unfoldable pub result_of : Ledger → PaperFill → Result LedgerError ExecutionResult
unfolding fetch_row malformed_mark marked_value marked_quantity
result_of l f = do
  nav ←
      or_raise (fetch_row (λ n. n.nav_snapshot_id) (str_append f.fill_id ":nav") l.nav_snapshots)
        conflict
  raise_if
      (not (str_eq nav.account_id f.account_id)
        || not (str_eq nav.snapshot_at.text f.filled_at.text))
      conflict
  raise_if
      (malformed_mark nav.position_marks.at_005930 || malformed_mark nav.position_marks.at_000660)
      conflict
  raise_if
      (not (same_int (marked_value nav.position_marks) nav.position_value_krw)
        || not (same_int nav.nav_krw (nav.cash_krw +ℤ marked_value nav.position_marks)))
      conflict
  ok (record {
    execution_id = f.fill_id;
    order_id = f.order_id;
    raw_reference_price_krw = f.raw_reference_price_krw;
    fill_price_krw = f.fill_price_krw;
    quantity = f.quantity;
    fee_krw = f.fee_krw;
    tax_krw = f.tax_krw;
    slippage_krw = f.slippage_krw;
    cash_krw = nav.cash_krw;
    position_quantity = marked_quantity (get nav.position_marks f.symbol);
    nav_krw = nav.nav_krw;
  })

-- `slip_per_share`
unfoldable pub slip_of : ExecutionPolicy → MarketObservation → ℕ
unfolding ceil_div
slip_of p o = ceil_div (o.reference_price_krw * p.slippage_bps) 10_000

-- `fill_price`; a price below 0 in the source is 0 here, and both are refused.
unfoldable pub fill_price_of : ExecutionPolicy → MarketObservation → Side → ℕ
unfolding slip_of
fill_price_of p o side = elim side [
  | buy ↦ o.reference_price_krw + slip_of p o
  | sell ↦ o.reference_price_krw - slip_of p o
]

-- `fee`
unfoldable pub fee_of : ExecutionPolicy → ℕ → ℕ
unfolding ceil_div
fee_of p gross = if p.fee_bps == 0 then 0 else ceil_div (gross * p.fee_bps) 10_000

-- `tax`
unfoldable pub tax_of : ExecutionPolicy → Side → ℕ → ℕ
unfolding ceil_div
tax_of p side gross = elim side [
  | buy ↦ 0
  | sell ↦ if p.sell_tax_bps == 0 then 0 else ceil_div (gross * p.sell_tax_bps) 10_000
]

-- A call of `execute_order`.
pub record Execution : Type 0 where
  pub order_id : String
  pub execution_id : String
  pub observation : MarketObservation
  pub policy : ExecutionPolicy
  pub executed_at : Timestamp

-- `expected`
unfoldable pub expected_fill : (ExecutionPolicy → String) → Execution → PaperOrder → FillRequest
unfolding slip_of fill_price_of fee_of tax_of
expected_fill policy_sha256 x order =
    let price = fill_price_of x.policy x.observation order.side in
    let gross = price * order.quantity in
    record {
      fill_id = x.execution_id;
      order_id = x.order_id;
      fill_price_krw = price;
      quantity = order.quantity;
      fee_krw = fee_of x.policy gross;
      tax_krw = tax_of x.policy order.side gross;
      slippage_krw = slip_of x.policy x.observation * order.quantity;
      observed_at = x.observation.observed_at;
      observation_sha256 = x.observation.source_sha256;
      filled_at = x.executed_at;
      raw_reference_price_krw = some x.observation.reference_price_krw;
      fee_bps = x.policy.fee_bps;
      tax_bps = x.policy.sell_tax_bps;
      slippage_bps = x.policy.slippage_bps;
      execution_policy_sha256 = some (policy_sha256 x.policy);
    }

-- The mark of a symbol whose position is `quantity`: the observation, or the mark that the last
-- snapshot has for the symbol.
unfoldable pub mark_of :
    MarketObservation → Option NavSnapshot → Symbol → ℤ → Result LedgerError (Option Mark)
mark_of o prior symbol quantity =
    if same_int quantity (pos 0)
    then ok none
    else if same_symbol symbol o.symbol
    then ok (
        some (record {
          quantity = quantity;
          price_krw = o.reference_price_krw;
          feature_snapshot_sha256 = o.source_sha256;
          observed_at = o.observed_at;
        }))
    else elim prior [
      | none ↦ err bad_shape
      | some n ↦ elim (get n.position_marks symbol) [
        | none ↦ err bad_shape
        | some m ↦ ok (some (record m { quantity = quantity }))
      ]
    ]

-- The snapshot that is stored with a fill.
unfoldable pub snapshot_of : Execution → PaperOrder → Ledger → Result LedgerError NavSnapshot
unfolding mark_of latest_nav marked_value cash_balance position take_text
snapshot_of x order l =
    let prior = latest_nav order.account_id l.nav_snapshots in
    let cash = cash_balance l order.account_id in
    do
      a ← mark_of x.observation prior s005930 (position l order.account_id s005930)
      b ← mark_of x.observation prior s000660 (position l order.account_id s000660)
      let marks : PerSymbol (Option Mark) = record { at_005930 = a; at_000660 = b }
      ok (record {
        nav_snapshot_id = str_append x.execution_id ":nav";
        account_id = order.account_id;
        session_date = take_text 10 x.executed_at.text;
        cash_krw = cash;
        position_value_krw = marked_value marks;
        position_marks = marks;
        nav_krw = cash +ℤ marked_value marks;
        snapshot_at = x.executed_at;
      })

-- The state of the order is ACCEPTED.
unfoldable pub is_accepted : Ledger → String → Bool
unfolding order_state
is_accepted l order_id = elim (order_state l order_id) [
  | none ↦ false
  | some t ↦ elim t [ accepted ↦ true | _ ↦ false ]
]

-- The means that `execute_order` asks for before it appends the fill.
unfoldable pub lacks_authority : FillRequest → PaperOrder → Ledger → Bool
unfolding cash_balance position
lacks_authority q order l = elim order.side [
  | buy ↦
      ltb_ℤ (cash_balance l order.account_id)
        (pos (q.fill_price_krw * order.quantity + q.fee_krw + q.tax_krw))
  | sell ↦ ltb_ℤ (position l order.account_id order.symbol) (pos order.quantity)
]

module _ (julianday : Timestamp → Option ℕ) (policy_sha256 : ExecutionPolicy → String) where
  -- From the fill to the result: the fill, its snapshot, and what is read back.
  unfoldable pub book_execution :
      Execution → PaperOrder → Ledger → Result LedgerError (Ledger × ExecutionResult)
  unfolding append_fill expected_fill snapshot_of append_nav_snapshot fetch_row result_of
  book_execution x order l = do
    booked ← append_fill julianday (expected_fill policy_sha256 x order) l
    snapshot ← snapshot_of x order booked
    marked ← append_nav_snapshot julianday snapshot booked
    stored ← or_raise (fetch_row (λ f. f.fill_id) x.execution_id marked.fills) unknown_row
    result ← result_of marked stored
    ok (marked, result)

  -- `execute_order` behind its checks of times: the execution is recorded already, or it is booked.
  -- A fill of the same order has the order's account, symbol and side, so the comparison of whole
  -- rows is the comparison of the keys of `expected`.
  unfoldable pub settle_order :
      Execution → PaperOrder → Ledger → Result LedgerError (Ledger × ExecutionResult)
  unfolding book_execution expected_fill fill_row fetch_row result_of is_accepted lacks_authority
  settle_order x order l =
      let expected = expected_fill policy_sha256 x order in
      do
        raise_if (ltb expected.fill_price_krw 1) bad_shape
        elim (fetch_row (λ f. f.fill_id) x.execution_id l.fills) [
          | some existing ↦ do
            raise_if (not (same_fill existing (fill_row expected order))) conflict
            result ← result_of l existing
            ok (l, result)
          | none ↦ do
            raise_if (not (is_accepted l x.order_id)) conflict
            raise_if (lacks_authority expected order l) bad_shape
            book_execution x order l
        ]

  -- `execute_order` from the order on: its decision, and the times.
  unfoldable pub execute_found :
      Execution → Moment → PaperOrder → Ledger → Result LedgerError (Ledger × ExecutionResult)
  unfolding settle_order fetch_row
  execute_found x observed order l = do
    proposal ← or_raise (fetch_row (λ p. p.proposal_id) order.proposal_id l.proposals) unknown_row
    decision ←
        or_raise (fetch_row (λ d. d.decision_id) proposal.decision_id l.decisions) unknown_row
    raise_if (not (same_symbol x.observation.symbol order.symbol)) bad_shape
    cutoff ← or_raise (aware decision.available_data_cutoff.reading) bad_time
    decided ← or_raise (aware decision.created_at.reading) bad_time
    raise_if (leb observed.instant cutoff.instant || leb observed.instant decided.instant) bad_time
    settle_order x order l

  -- `execute_order`
  unfoldable pub execute_order : Execution → Ledger → Result LedgerError (Ledger × ExecutionResult)
  unfolding execute_found fetch_row require_kst_iso
  execute_order x l = do
    executed ← require_kst_iso x.executed_at
    observed ← or_raise (aware x.observation.observed_at.reading) bad_time
    raise_if (ltb executed.instant observed.instant) bad_time
    order ← or_raise (fetch_row (λ o. o.order_id) x.order_id l.orders) unknown_row
    execute_found x observed order l
