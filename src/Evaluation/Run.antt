-- ===== src/Evaluation/Run.antt =====
-- `_run` of strategy/paper_evaluation.py: one strategy over a schedule of decisions, each with the
-- price at which it is settled. Prices and rates are checked before and are not negative; cash,
-- quantities and values are integers that the code itself holds at zero or more.
use kronos_stock.Common.{
  ℕ, ◌+◌, ◌-◌, ◌*◌, ◌/◌, String, List, [], ◌∷◌, ◌++◌, ◌&&◌, ◌||◌, Result, ok, raise_if, ◌>>=◌, ◌>>◌,
  if◌then◌else◌, Bool, false, ◌==◌, length, str_eq, any, max,
}
use kronos_stock.Common.Int.{
  ℤ, pos, pos_part, neg_part, ◌+ℤ◌, ◌-ℤ◌, scale, floor_div, ltb_ℤ, leb_ℤ, min_ℤ, max_ℤ,
}
use kronos_stock.Symbols.{PerSymbol, get, put, Action, enter, reduce, exit, buy, sell}
use kronos_stock.Evaluation.Records.{
  DecisionRecord, MarketOutcome, EvaluationConfig, Fill, SessionState, StrategyResult,
  EvaluationError, negative_state, zero_division,
}

-- A member of `schedule`.
pub record Entry : Type 0 where
  pub decision : DecisionRecord
  pub observation : MarketOutcome
  pub action : Action

-- The variables of the loop. `last_prices.get(symbol, 0)` is all that is read of a dictionary of
-- prices, so a symbol that is not in it has the price 0 here.
pub record Track : Type 0 where
  pub cash : ℤ
  pub positions : PerSymbol ℤ
  pub last_prices : PerSymbol ℕ
  pub fills : List Fill
  pub states : List SessionState
  pub actions : List Action
  pub fees : ℕ
  pub taxes : ℕ
  pub slippage : ℕ
  pub turnover : ℕ
  pub peak : ℤ
  pub max_dd : ℤ

-- `_ceil`
unfoldable pub ceil_bps : ℕ → ℕ → ℕ
ceil_bps value bps = (value * bps + 9_999) / 10_000

unfoldable pub buy_price : EvaluationConfig → ℕ → ℕ
buy_price c raw = (raw * (10_000 + c.slippage_bps) + 9_999) / 10_000

unfoldable pub sell_price : EvaluationConfig → ℕ → ℕ
sell_price c raw = max 1 (raw * (10_000 - c.slippage_bps) / 10_000)

unfoldable pub nav_of : Track → ℤ
nav_of t =
    t.cash
    +ℤ (scale t.positions.at_005930 t.last_prices.at_005930
        +ℤ scale t.positions.at_000660 t.last_prices.at_000660)

-- `desired`, with the last price of the symbol already set
unfoldable pub desired_quantity : EvaluationConfig → Track → Entry → ℤ
unfolding nav_of buy_price
desired_quantity c t e =
    let raw = e.observation.price_krw in
    let quantity = get t.positions e.observation.symbol in
    let target = floor_div (floor_div (scale (nav_of t) c.target_exposure_bps) 10_000) raw in
    let affordable = floor_div (scale t.cash 10_000) (buy_price c raw * (10_000 + c.fee_bps)) in
    elim e.action [
      | enter ↦ min_ℤ target (quantity +ℤ affordable)
      | reduce ↦ floor_div quantity 2
      | exit ↦ pos 0
      | _ ↦ quantity
    ]

-- The fill that the branch `delta > 0` books.
unfoldable pub buy_fill : EvaluationConfig → Entry → ℕ → Fill
unfolding ceil_bps buy_price
buy_fill c e delta =
    let raw = e.observation.price_krw in
    let fill_price = buy_price c raw in
    record {
      decision_session_id = e.decision.session_id;
      observation_session_id = e.observation.session_id;
      symbol = e.observation.symbol;
      side = buy;
      quantity = delta;
      raw_price_krw = raw;
      fill_price_krw = fill_price;
      fee_krw = ceil_bps (delta * fill_price) c.fee_bps;
      tax_krw = 0;
      slippage_krw = delta * (fill_price - raw);
    }

-- The branch `delta > 0`: no partial fill and no borrowing.
unfoldable pub buy_shares : EvaluationConfig → Entry → ℕ → Track → Track
unfolding ceil_bps buy_price buy_fill
buy_shares c e delta t =
    let raw = e.observation.price_krw in
    let symbol = e.observation.symbol in
    let fill_price = buy_price c raw in
    let notional = delta * fill_price in
    let fee = ceil_bps notional c.fee_bps in
    if leb_ℤ (pos (notional + fee)) t.cash
    then record t {
      cash = t.cash -ℤ pos (notional + fee);
      positions = put t.positions symbol (get t.positions symbol +ℤ pos delta);
      fills = t.fills ++ (buy_fill c e delta ∷ []);
      fees = t.fees + fee;
      slippage = t.slippage + delta * (fill_price - raw);
      turnover = t.turnover + delta * raw;
    }
    else t

-- The fill that the branch `delta < 0` books.
unfoldable pub sell_fill : EvaluationConfig → Entry → ℕ → Fill
unfolding ceil_bps sell_price
sell_fill c e sold =
    let raw = e.observation.price_krw in
    let fill_price = sell_price c raw in
    record {
      decision_session_id = e.decision.session_id;
      observation_session_id = e.observation.session_id;
      symbol = e.observation.symbol;
      side = sell;
      quantity = sold;
      raw_price_krw = raw;
      fill_price_krw = fill_price;
      fee_krw = ceil_bps (sold * fill_price) c.fee_bps;
      tax_krw = ceil_bps (sold * fill_price) c.sell_tax_bps;
      slippage_krw = sold * (raw - fill_price);
    }

-- The branch `delta < 0`.
unfoldable pub sell_shares : EvaluationConfig → Entry → ℕ → Track → Track
unfolding ceil_bps sell_price sell_fill
sell_shares c e sold t =
    let raw = e.observation.price_krw in
    let symbol = e.observation.symbol in
    let fill_price = sell_price c raw in
    let notional = sold * fill_price in
    let fee = ceil_bps notional c.fee_bps in
    let tax = ceil_bps notional c.sell_tax_bps in
    let proceeds = pos notional -ℤ pos fee -ℤ pos tax in
    if leb_ℤ (pos 0) proceeds && leb_ℤ (pos sold) (get t.positions symbol)
    then record t {
      cash = t.cash +ℤ proceeds;
      positions = put t.positions symbol (get t.positions symbol -ℤ pos sold);
      fills = t.fills ++ (sell_fill c e sold ∷ []);
      fees = t.fees + fee;
      taxes = t.taxes + tax;
      slippage = t.slippage + sold * (raw - fill_price);
      turnover = t.turnover + sold * raw;
    }
    else t

unfoldable pub trade : EvaluationConfig → Entry → ℤ → Track → Track
trade c e delta t =
    if ltb_ℤ (pos 0) delta
    then buy_shares c e (pos_part delta) t
    else if ltb_ℤ delta (pos 0)
    then sell_shares c e (neg_part delta) t
    else t

-- The top of the loop's body.
unfoldable pub observe : Entry → Track → Track
observe e t = record t {
  last_prices = put t.last_prices e.observation.symbol e.observation.price_krw;
  actions = t.actions ++ (e.action ∷ []);
}

-- The member of `states` for a round.
unfoldable pub session_state : Entry → Track → SessionState
unfolding nav_of
session_state e t = record {
  session_id = e.observation.session_id;
  cash_krw = t.cash;
  position_quantity = t.positions.at_005930 +ℤ t.positions.at_000660;
  nav_krw = nav_of t;
}

-- The loop's body behind the trade. `peak` stays positive, so its number is the divisor.
unfoldable pub settle : Entry → Track → Result EvaluationError Track
unfolding nav_of session_state
settle e t =
    let nav = nav_of t in
    let peak = max_ℤ t.peak nav in
    do
      raise_if
          (ltb_ℤ t.cash (pos 0)
            || (ltb_ℤ t.positions.at_005930 (pos 0) || ltb_ℤ t.positions.at_000660 (pos 0))
            || ltb_ℤ nav (pos 0))
          negative_state
      ok (record t {
        peak = peak;
        max_dd = max_ℤ t.max_dd (floor_div (scale (peak -ℤ nav) 10_000) (pos_part peak));
        states = t.states ++ (session_state e t ∷ []);
      })

-- `// raw`, in the branch "ENTER"
unfoldable pub divides_by_zero : Entry → Bool
divides_by_zero e = elim e.action [ enter ↦ e.observation.price_krw == 0 | _ ↦ false ]

unfoldable pub step : EvaluationConfig → Entry → Track → Result EvaluationError Track
unfolding observe desired_quantity trade settle divides_by_zero
step c e t =
    let seen = observe e t in
    let delta = desired_quantity c seen e -ℤ get seen.positions e.observation.symbol in
    do raise_if (divides_by_zero e) zero_division; settle e (trade c e delta seen)

unfoldable pub run_from : EvaluationConfig → List Entry → Track → Result EvaluationError Track
unfolding step
run_from c [] t = ok t
run_from c (e ∷ es) t = step c e t >>= run_from c es

unfoldable pub start : EvaluationConfig → Track
start c = record {
  cash = pos c.initial_cash_krw;
  positions = record { at_005930 = pos 0; at_000660 = pos 0 };
  last_prices = record { at_005930 = 0; at_000660 = 0 };
  fills = [];
  states = [];
  actions = [];
  fees = 0;
  taxes = 0;
  slippage = 0;
  turnover = 0;
  peak = pos c.initial_cash_krw;
  max_dd = pos 0;
}

-- `len({...})`, of the texts of a list
unfoldable pub count_distinct : List String → ℕ
count_distinct [] = 0
count_distinct (s ∷ ss) = (if any (str_eq s) ss then 0 else 1) + count_distinct ss

unfoldable pub session_ids : List Entry → List String
session_ids [] = []
session_ids (e ∷ es) = e.observation.session_id ∷ session_ids es

-- `states[-1].nav_krw if states else initial_cash_krw`
unfoldable pub ending_nav : ℤ → List SessionState → ℤ
ending_nav nav [] = nav
ending_nav nav (s ∷ ss) = ending_nav s.nav_krw ss

unfoldable pub report_track : EvaluationConfig → List Entry → Track → StrategyResult
unfolding count_distinct session_ids ending_nav
report_track c schedule t =
    let nav = ending_nav (pos c.initial_cash_krw) t.states in
    record {
      ending_cash_krw = t.cash;
      ending_position_quantity = t.positions.at_005930 +ℤ t.positions.at_000660;
      ending_nav_krw = nav;
      return_bps = floor_div (scale (nav -ℤ pos c.initial_cash_krw) 10_000) c.initial_cash_krw;
      turnover_bps = t.turnover * 10_000 / c.initial_cash_krw;
      max_drawdown_bps = t.max_dd;
      fill_count = length t.fills;
      completed_sessions = count_distinct (session_ids schedule);
      total_fees_krw = t.fees;
      total_tax_krw = t.taxes;
      total_slippage_krw = t.slippage;
      action_trace = t.actions;
      fills = t.fills;
      session_states = t.states;
    }

-- `_run`
unfoldable pub run : EvaluationConfig → List Entry → Result EvaluationError StrategyResult
unfolding run_from start report_track
run c schedule = do t ← run_from c schedule (start c); ok (report_track c schedule t)
