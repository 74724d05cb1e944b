-- ===== src/Review/Persist.antt =====
-- `review_and_persist` of strategy/paper_risk.py. It runs in one transaction: a review that raises
-- leaves the ledger as it was.
use kronos_stock.Common.{
  ℕ, ◌+◌, String, Bool, true, false, not, ◌||◌, Option, none, some, Result, ok, raise_if, or_raise,
  ◌>>=◌, ◌>>◌, if◌then◌else◌, str_eq,
}
use kronos_stock.Common.Int.{ℤ, pos, ltb_ℤ}
use kronos_stock.Common.Time.{Moment, Timestamp}
use kronos_stock.Symbols.{PerSymbol, get, s005930, s000660}
use kronos_stock.Features.Records.{SymbolFeatureOutput}
use kronos_stock.Risk.Records.{
  RiskPolicy, RiskInput, RiskResult, make_input, bad_label, not_positive,
}
use kronos_stock.Risk.Evaluate.{evaluate_risk}
use kronos_stock.Ledger.Records.{Ledger, RiskReview, ReviewVerdict}
use kronos_stock.Ledger.Checks.{fetch_row, position, bad_choice}
use kronos_stock.Ledger.Append.{append_risk_review}
use kronos_stock.Review.Records.{
  ReviewError, untimely, inconsistent, risk_error, Portfolio, Gate, account_disabled, kill_engaged,
  duplicated, open_gate, Authoritative, Reviewing, review_time, review_identity, from_ledger,
  from_risk, natural, stored_verdict, reject_text, accepts, ledger_error,
}
use kronos_stock.Review.Binding.{bind_proposal}
use kronos_stock.Review.Gates.{find_gate, accepted_others}
use kronos_stock.Review.Navs.{read_current, canonical_price, read_history, history_of}
use kronos_stock.Review.Reservations.{reserve_all, count_dated}

-- A call of `review_and_persist`; its request and its valuation snapshots are arguments beside it.
pub record ReviewCall : Type 0 where
  pub proposal_id : String
  pub reviewed_at : Timestamp
  pub policy : RiskPolicy

abbrev or_else : Option ℤ → ℤ → ℤ
or_else none v = v
or_else (some w) v = w

module _ {V : Type 0} (env : Reviewing V) where
  -- The state that the open gate leads to.
  unfoldable pub read_portfolio :
      Ledger
      → ReviewCall
      → Moment
      → RiskInput V
      → PerSymbol (Option (SymbolFeatureOutput V))
      → Result ReviewError Portfolio
  unfolding position read_current canonical_price read_history history_of accepted_others
      reserve_all count_dated
  read_portfolio l c reviewed r valuations = do
    raise_if
        (ltb_ℤ (position l r.account_id s005930) (pos 0)
          || ltb_ℤ (position l r.account_id s000660) (pos 0))
        inconsistent
    current ← read_current env l c.reviewed_at reviewed r valuations
    price ← canonical_price env r.feature_snapshot
    highs ←
        read_history l r.account_id r.session_id reviewed
          (record { high_water = none; prior = none }) (history_of env l r.account_id r.session_id)
    high ← or_raise highs.high_water inconsistent
    effective ←
        reserve_all l r.session_id (accepted_others l r.account_id c.proposal_id l.reviews)
          (record {
            cash = current.cash;
            holdings = current.holdings;
            position_value = current.nav.position_value_krw;
            pending = 0;
          })
    raise_if (ltb_ℤ effective.cash (pos 0)) inconsistent
    orders ← count_dated (λ o. o.account_id) (λ o. o.created_at) r.account_id r.session_id l.orders
    fills ← count_dated (λ f. f.account_id) (λ f. f.filled_at) r.account_id r.session_id l.fills
    ok (record {
      cash_krw = effective.cash;
      holdings = effective.holdings;
      price_krw = price;
      position_value_krw = effective.position_value;
      nav_krw = current.nav.nav_krw;
      high_water_nav_krw = high;
      session_start_nav_krw = or_else highs.prior current.nav.nav_krw;
      daily_order_count = orders + effective.pending;
      daily_fill_count = fills;
      nav_snapshot_id = current.nav.nav_snapshot_id;
      nav_snapshot_at = current.nav.snapshot_at;
    })

  -- Earlier rejections do not read the portfolio.
  unfoldable pub portfolio_behind :
      Gate
      → Ledger
      → ReviewCall
      → Moment
      → RiskInput V
      → PerSymbol (Option (SymbolFeatureOutput V))
      → Result ReviewError (Option Portfolio)
  unfolding read_portfolio
  portfolio_behind open_gate l c reviewed r valuations = do
    p ← read_portfolio l c reviewed r valuations
    ok (some p)
  portfolio_behind gate l c reviewed r valuations = ok none

  -- `state`
  unfoldable pub read_state :
      Ledger
      → ReviewCall
      → RiskInput V
      → PerSymbol (Option (SymbolFeatureOutput V))
      → Result ReviewError Authoritative
  unfolding review_time bind_proposal find_gate portfolio_behind
  read_state l c r valuations = do
    reviewed ← review_time c.reviewed_at
    binding ← bind_proposal l c.proposal_id reviewed r
    gate ← find_gate l c.proposal_id reviewed r
    portfolio ← portfolio_behind gate l c reviewed r valuations
    ok (record { gate = gate; binding = binding; portfolio = portfolio })

  -- The request with the flags of the gate.
  unfoldable pub with_gate : Gate → RiskInput V → RiskInput V
  with_gate gate r = record r {
    trading_enabled = elim gate [ account_disabled e ↦ false | _ ↦ true ];
    kill_switch_engaged = elim gate [ kill_engaged e ↦ true | _ ↦ false ];
    duplicate_state_snapshot = elim gate [ duplicated ↦ true | _ ↦ false ];
  }

  -- A value of the ledger as a field of the input, which must not be negative.
  abbrev as_field : ℤ → Result ReviewError ℕ
  as_field z = or_raise (natural z) (risk_error not_positive)

  -- The request with the portfolio's values.
  unfoldable pub with_portfolio : Portfolio → RiskInput V → Result ReviewError (RiskInput V)
  with_portfolio p r = do
    price ← as_field p.price_krw
    cash ← as_field p.cash_krw
    held ← as_field (get p.holdings r.symbol)
    value ← as_field p.position_value_krw
    nav ← as_field p.nav_krw
    high ← as_field p.high_water_nav_krw
    start ← as_field p.session_start_nav_krw
    ok (record r {
      price_krw = price;
      cash_krw = cash;
      holdings_quantity = held;
      aggregate_position_value_krw = value;
      nav_krw = nav;
      high_water_nav_krw = high;
      session_start_nav_krw = start;
      daily_order_count = p.daily_order_count;
      daily_fill_count = p.daily_fill_count;
    })

  -- `authoritative`: every replacement is checked as an input.
  unfoldable pub authoritative_input :
      Authoritative → RiskInput V → Result ReviewError (RiskInput V)
  unfolding make_input with_gate with_portfolio
  authoritative_input state r = do
    flagged ← from_risk (make_input env.ops env.snapshot_digest (with_gate state.gate r))
    elim state.portfolio [
      | none ↦ ok flagged
      | some p ↦ do
        replaced ← with_portfolio p flagged
        from_risk (make_input env.ops env.snapshot_digest replaced)
    ]

  -- The row of the review.
  unfoldable pub review_row :
      String
      → ReviewCall
      → Option Portfolio
      → RiskResult
      → ReviewVerdict
      → Result ReviewError RiskReview
  review_row review_id c portfolio res verdict = do
    price ←
        (if accepts verdict
          then elim portfolio [
            | none ↦ ok none
            | some p ↦
                or_raise (elim (natural p.price_krw) [ none ↦ none | some n ↦ some (some n) ])
                  inconsistent
          ]
          else ok none)
    ok (record {
      review_id = review_id;
      proposal_id = c.proposal_id;
      verdict = verdict;
      reject_reason_code = elim res.reject_reason_code [
        | none ↦ none
        | some e ↦ some (reject_text e)
      ];
      approved_quantity = res.approved_quantity;
      reference_price_krw = price;
      policy_sha256 = res.policy_sha256;
      reviewed_at = c.reviewed_at;
    })

  -- The proposal has another review already.
  abbrev pub reviewed_otherwise : Ledger → ReviewCall → String → Bool
  reviewed_otherwise l c review_id = elim (fetch_row (λ x. x.proposal_id) c.proposal_id l.reviews) [
    | none ↦ false
    | some prior ↦ not (str_eq prior.review_id review_id)
  ]

  -- The verdict is stored, unless it orders nothing.
  unfoldable pub store_review :
      Ledger
      → String
      → ReviewCall
      → Option Portfolio
      → RiskResult
      → Result ReviewError (Ledger × Option String)
  unfolding review_row append_risk_review
  store_review l review_id c portfolio res =
      let stored : Result ReviewError (Ledger × Option String) = (do
        verdict ← or_raise (stored_verdict res.verdict) (ledger_error bad_choice)
        row ← review_row review_id c portfolio res verdict
        l' ← from_ledger (append_risk_review env.julianday row l)
        ok (l', some review_id)) in
      if res.order_required then stored else ok (l, none)

  -- The review of a state.
  unfoldable pub review_state :
      Ledger
      → ReviewCall
      → RiskInput V
      → Authoritative
      → Result ReviewError (Ledger × Option String)
  unfolding fetch_row authoritative_input evaluate_risk store_review
  review_state l c r state =
      let review_id = review_identity env c.proposal_id c.reviewed_at r c.policy state in
      do
        raise_if (reviewed_otherwise l c review_id) inconsistent
        input ← authoritative_input state r
        res ←
            from_risk
              (evaluate_risk env.ops env.canonical_output_id env.policy_sha256 input c.policy)
        store_review l review_id c state.portfolio res

  -- `review_and_persist`
  unfoldable pub review_and_persist :
      Ledger
      → ReviewCall
      → RiskInput V
      → PerSymbol (Option (SymbolFeatureOutput V))
      → Result ReviewError (Ledger × Option String)
  unfolding bad_label read_state review_state
  review_and_persist l c r valuations = do
    raise_if (bad_label c.proposal_id) untimely
    state ← read_state l c r valuations
    review_state l c r state
