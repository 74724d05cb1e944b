-- ===== src/Evaluation/Reconciliation.antt =====
-- A run's cash, positions, totals and traces follow from its fills and its schedule.
use mathlib.Core.List.{append-nil, append_assoc}
use kronos_stock.Common.{
  ℕ, ◌+◌, ◌*◌, ◌/◌, ◌≡◌, refl, ◌++◌, List, [], ◌∷◌, length, sum_by, arith, Returns, >>=-Returns,
  if◌then◌else◌, length-append, ◌&&◌, IfOk, raise_if-IfOk, raise_if-IfOk_then, All, >>=-IfOk,
  Returns-IfOk, IfOk_map, IfOk_both, map, Bool-cases, inl, inr, sym,
}
use kronos_stock.Common.Int.{
  ℤ, pos, pos_part, neg_part, ◌+ℤ◌, ◌-ℤ◌, int_laws, leb_ℤ, +ℤ-zero, sum_ℤ,
}
use kronos_stock.Symbols.{Symbol, s005930, s000660, PerSymbol, get, put, same_symbol}
use kronos_stock.Evaluation.Records.{
  EvaluationConfig, StrategyResult, negative_state, zero_division, IsConfig,
}
use kronos_stock.Evaluation.Run.{
  Entry, Track, buy_shares, sell_shares, trade, observe, settle, step, run_from, start,
  report_track, run, desired_quantity, buy_price, divides_by_zero, sell_price, ceil_bps, buy_fill,
  sell_fill,
}
use kronos_stock.Evaluation.Accounting.{
  cash_effect, quantity_effect, IsReconciled, book-IsReconciled,
}
use kronos_stock.Evaluation.Soundness.{IsSound, IsPriced, run_from-IsSound, start-IsSound}

-- Adding at one symbol adds nothing at the other.
module _ (d : PerSymbol ℤ) (v : ℤ) where
  put_005930 :
      (s : Symbol)
      → (put d s (get d s +ℤ v)).at_005930
        ≡ d.at_005930 +ℤ (if same_symbol s s005930 then v else pos 0)
  put_005930 s005930 = refl
  put_005930 s000660 = sym (+ℤ-zero d.at_005930)

  put_000660 :
      (s : Symbol)
      → (put d s (get d s +ℤ v)).at_000660
        ≡ d.at_000660 +ℤ (if same_symbol s s000660 then v else pos 0)
  put_000660 s005930 = sym (+ℤ-zero d.at_000660)
  put_000660 s000660 = refl

buy_shares-IsReconciled :
    (c : EvaluationConfig) (e : Entry) (n : ℕ) (t : Track)
    → IsReconciled c t
    → IsReconciled c (buy_shares c e n t)
unfolding buy_shares
buy_shares-IsReconciled c e n t r =
    let price = buy_price c e.observation.price_krw in
    let cost = n * price + ceil_bps (n * price) c.fee_bps in
    elim (Bool-cases (leb_ℤ (pos cost) t.cash)) [
      | inl paid ↦ rw paid (
          book-IsReconciled c t _ (buy_fill c e n) refl r (omega int_laws)
            (put_005930 t.positions (pos n) e.observation.symbol)
            (put_000660 t.positions (pos n) e.observation.symbol) refl (omega arith) refl refl)
      | inr short ↦ rw short r
    ]

sub_as_add : (a : ℤ) (n : ℕ) → a -ℤ pos n ≡ a +ℤ (pos 0 -ℤ pos n)
sub_as_add a n = omega int_laws

sell_shares-IsReconciled :
    (c : EvaluationConfig) (e : Entry) (n : ℕ) (t : Track)
    → IsReconciled c t
    → IsReconciled c (sell_shares c e n t)
unfolding sell_shares
sell_shares-IsReconciled c e n t r =
    let price = sell_price c e.observation.price_krw in
    let symbol = e.observation.symbol in
    let held = get t.positions symbol in
    let proceeds =
      pos (n * price)
      -ℤ pos (ceil_bps (n * price) c.fee_bps)
      -ℤ pos (ceil_bps (n * price) c.sell_tax_bps) in
    elim (Bool-cases (leb_ℤ (pos 0) proceeds && leb_ℤ (pos n) held)) [
      | inl sold ↦ rw (sold) (
          book-IsReconciled c t _ (sell_fill c e n) refl r (omega int_laws)
            (rw (sub_as_add held n) (put_005930 t.positions (pos 0 -ℤ pos n) symbol))
            (rw (sub_as_add held n) (put_000660 t.positions (pos 0 -ℤ pos n) symbol)) refl refl refl
            refl)
      | inr kept ↦ rw kept r
    ]

trade-IsReconciled :
    (c : EvaluationConfig) (e : Entry) (delta : ℤ) (t : Track)
    → IsReconciled c t
    → IsReconciled c (trade c e delta t)
unfolding trade
trade-IsReconciled c e delta t r = ground (
  arith,
  buy_shares-IsReconciled c e (pos_part delta) t r,
  sell_shares-IsReconciled c e (neg_part delta) t r,
)

observe-IsReconciled :
    (c : EvaluationConfig) (e : Entry) (t : Track) → IsReconciled c t → IsReconciled c (observe e t)
unfolding observe
observe-IsReconciled c e t r = ground arith

settle-IsReconciled :
    (c : EvaluationConfig) (e : Entry) (t : Track)
    → IsReconciled c t
    → IfOk (settle e t) (IsReconciled c)
unfolding settle
settle-IsReconciled c e t r = raise_if-IfOk (IsReconciled c) _ negative_state _ (ground arith)

step-IsReconciled :
    (c : EvaluationConfig) (e : Entry) (t : Track)
    → IsReconciled c t
    → IfOk (step c e t) (IsReconciled c)
unfolding step
step-IsReconciled c e t r =
    let seen = observe e t in
    let delta = desired_quantity c seen e -ℤ get seen.positions e.observation.symbol in
    raise_if-IfOk_then (IsReconciled c) (divides_by_zero e) zero_division _ (
      settle-IsReconciled c e (trade c e delta seen)
        (trade-IsReconciled c e delta seen (observe-IsReconciled c e t r)))

run_from-IsReconciled :
    (c : EvaluationConfig) (es : List Entry) (t : Track)
    → IsReconciled c t
    → IfOk (run_from c es t) (IsReconciled c)
unfolding run_from
run_from-IsReconciled c [] t r = r
run_from-IsReconciled c (e ∷ es) t r =
    >>=-IfOk (IsReconciled c) (IsReconciled c) (step c e t) (run_from c es)
      (step-IsReconciled c e t r) (run_from-IsReconciled c es)

-- What one round adds to the two traces.
module _ (c : EvaluationConfig) where
  abbrev Traces : List Entry → Track → Track → Type 0
  Traces es t u =
      (u.actions ≡ t.actions ++ map (λ e. e.action) es)
      × (length u.states ≡ length t.states + length es)

  trade_traces :
      (e : Entry) (delta : ℤ) (t : Track)
      → ((trade c e delta t).actions ≡ t.actions) × ((trade c e delta t).states ≡ t.states)
  unfolding trade buy_shares sell_shares
  trade_traces e delta t = ground arith

  step-Traces : (e : Entry) (t : Track) → IfOk (step c e t) (Traces (e ∷ []) t)
  unfolding step settle observe
  step-Traces e t =
      let seen = observe e t in
      let delta = desired_quantity c seen e -ℤ get seen.positions e.observation.symbol in
      let (same_actions, same_states) = trade_traces e delta seen in
      raise_if-IfOk_then (Traces (e ∷ []) t) (divides_by_zero e) zero_division _ (
        raise_if-IfOk (Traces (e ∷ []) t) _ negative_state _
          (same_actions, rw (length-append, same_states) (omega arith)))

  run_from-Traces : (es : List Entry) (t : Track) → IfOk (run_from c es t) (Traces es t)
  unfolding run_from
  run_from-Traces [] t = (sym (append-nil t.actions), omega arith)
  run_from-Traces (e ∷ es) t =
      >>=-IfOk (Traces (e ∷ []) t) (Traces (e ∷ es) t) (step c e t) (run_from c es)
        (step-Traces e t)
        λ u first.
          IfOk_map (Traces es u) (Traces (e ∷ es) t) (run_from c es u) (run_from-Traces es u)
            λ v rest. (rw (rest.0, first.0, append_assoc), omega (arith, rest.1, first.1))

start-IsReconciled : (c : EvaluationConfig) → IsReconciled c (start c)
unfolding start sum_ℤ
start-IsReconciled c = record {
  cash_settled = sym (+ℤ-zero (pos c.initial_cash_krw));
  held_005930 = refl;
  held_000660 = refl;
  fees_paid = refl;
  taxes_paid = refl;
  slippage_paid = refl;
  turned_over = refl;
}

-- A result in which every figure follows from the fills, and the traces from the schedule.
pub record IsSettled (c : EvaluationConfig) (schedule : List Entry) (r : StrategyResult)
    : Type 0 where
  pub cash_settled : r.ending_cash_krw ≡ pos c.initial_cash_krw +ℤ sum_ℤ cash_effect r.fills
  pub quantity_settled :
      r.ending_position_quantity
      ≡ sum_ℤ (quantity_effect s005930) r.fills +ℤ sum_ℤ (quantity_effect s000660) r.fills
  pub fees_paid : r.total_fees_krw ≡ sum_by (λ f. f.fee_krw) r.fills
  pub taxes_paid : r.total_tax_krw ≡ sum_by (λ f. f.tax_krw) r.fills
  pub slippage_paid : r.total_slippage_krw ≡ sum_by (λ f. f.slippage_krw) r.fills
  pub turned_over :
      r.turnover_bps
      ≡ sum_by (λ f. f.quantity * f.raw_price_krw) r.fills * 10_000 / c.initial_cash_krw
  pub fills_counted : r.fill_count ≡ length r.fills
  pub actions_traced : r.action_trace ≡ map (λ e. e.action) schedule
  pub sessions_traced : length r.session_states ≡ length schedule

report_track-IsSettled :
    (c : EvaluationConfig) (es : List Entry) (t : Track)
    → IsReconciled c t
    → Traces c es (start c) t
    → IsSettled c es (report_track c es t)
unfolding report_track start
report_track-IsSettled c es t r (actions, states) = record {
  cash_settled = r.cash_settled;
  quantity_settled = cc (r.held_005930, r.held_000660);
  fees_paid = r.fees_paid;
  taxes_paid = r.taxes_paid;
  slippage_paid = r.slippage_paid;
  turned_over = rw (← r.turned_over) refl;
  fills_counted = refl;
  actions_traced = actions;
  sessions_traced = omega arith;
}

-- For every configuration that can be built and every schedule of positive prices the run returns a result that its
-- own list of fills explains: the cash at the end is the initial cash, less price times quantity,
-- fee and tax of each purchase, plus price times quantity less fee and tax of each sale; the
-- positions are the quantities bought less those sold; fees, taxes, slippage, turnover and the
-- number of fills are the sums over the fills; the actions are those of the schedule in its
-- order, and there is one session state for each entry.
pub run_settles :
    (c : EvaluationConfig) (schedule : List Entry)
    → IsConfig c
    → All IsPriced schedule
    → Returns (run c schedule) (IsSettled c schedule)
unfolding run
run_settles c schedule h p =
    let sound = run_from-IsSound c schedule (start c) p (start-IsSound c h) in
    let books = run_from-IsReconciled c schedule (start c) (start-IsReconciled c) in
    let both =
      IfOk_both (IsReconciled c) (Traces c schedule (start c)) (run_from c schedule (start c)) books
        (run_from-Traces c schedule (start c)) in
    >>=-Returns _ (IsSettled c schedule) (run_from c schedule (start c)) _
      (Returns-IfOk IsSound _ (run_from c schedule (start c)) sound both)
      (λ t r. report_track-IsSettled c schedule t r.0 r.1)
