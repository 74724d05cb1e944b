-- ===== src/Evaluation/Soundness.antt =====
-- The run of a strategy never meets its own error, whatever the schedule.
use native.Mathlib.Nat.{div-le_of_le-mul}
use kronos_stock.Common.{
  ℕ, ◌≤◌, ◌≡◌, false, List, [], ◌∷◌, All, arith, Returns, All-append, >>=-Returns,
}
use kronos_stock.Common.Int.{
  ℤ, pos, negsuc, pos_part, neg_part, ◌+ℤ◌, ◌-ℤ◌, ◌≤ℤ◌, scale, floor_div, max_ℤ, int_laws,
}
use kronos_stock.Symbols.{get}
use kronos_stock.Evaluation.Records.{EvaluationConfig, IsConfig, SessionState, StrategyResult}
use kronos_stock.Evaluation.Run.{
  Entry, Track, nav_of, buy_shares, sell_shares, trade, observe, settle, step, run_from, start, run,
  desired_quantity, ending_nav, report_track, session_state, divides_by_zero,
}

pub scale_nonneg : (a : ℤ) (n : ℕ) → pos 0 ≤ℤ a → pos 0 ≤ℤ scale a n
unfolding scale
scale_nonneg (pos a) n h = ground arith
scale_nonneg (negsuc a) n h = absurd (omega arith)

-- A share of a value that is not above the value, in basis points.
pub share_bounds :
    (d p : ℤ)
    → pos 0 ≤ℤ d
    → d ≤ℤ p
    → pos 1 ≤ℤ p
    → (pos 0 ≤ℤ floor_div (scale d 10_000) (pos_part p))
      × (floor_div (scale d 10_000) (pos_part p) ≤ℤ pos 10_000)
unfolding scale floor_div
share_bounds (pos d) (pos p) h k l = grind (arith, div-le_of_le-mul)
share_bounds (pos d) (negsuc p) h k l = absurd (omega arith)
share_bounds (negsuc d) p h k l = absurd (omega arith)

-- A session's state has no negative amount.
abbrev pub IsNonneg : SessionState → Type 0
IsNonneg s = (pos 0 ≤ℤ s.cash_krw) × (pos 0 ≤ℤ s.position_quantity) × (pos 0 ≤ℤ s.nav_krw)

-- What holds of the loop's variables between two rounds.
pub record IsSound (t : Track) : Type 0 where
  pub cash_nonneg : pos 0 ≤ℤ t.cash
  pub nonneg_005930 : pos 0 ≤ℤ t.positions.at_005930
  pub nonneg_000660 : pos 0 ≤ℤ t.positions.at_000660
  pub peak_positive : pos 1 ≤ℤ t.peak
  pub dd_nonneg : pos 0 ≤ℤ t.max_dd
  pub dd_bound : t.max_dd ≤ℤ pos 10_000
  pub states_nonneg : All IsNonneg t.states

pub nav_of_nonneg : (t : Track) → IsSound t → pos 0 ≤ℤ nav_of t
unfolding nav_of
nav_of_nonneg t s = omega (
  int_laws,
  scale_nonneg t.positions.at_005930 t.last_prices.at_005930 s.nonneg_005930,
  scale_nonneg t.positions.at_000660 t.last_prices.at_000660 s.nonneg_000660,
)

pub observe-IsSound : (e : Entry) (t : Track) → IsSound t → IsSound (observe e t)
unfolding observe
observe-IsSound e t s = ground arith

buy_shares-IsSound :
    (c : EvaluationConfig) (e : Entry) (n : ℕ) (t : Track)
    → IsSound t
    → IsSound (buy_shares c e n t)
unfolding buy_shares
buy_shares-IsSound c e n t s = grind int_laws

sell_shares-IsSound :
    (c : EvaluationConfig) (e : Entry) (n : ℕ) (t : Track)
    → IsSound t
    → IsSound (sell_shares c e n t)
unfolding sell_shares
sell_shares-IsSound c e n t s = grind int_laws

pub trade-IsSound :
    (c : EvaluationConfig) (e : Entry) (delta : ℤ) (t : Track)
    → IsSound t
    → IsSound (trade c e delta t)
unfolding trade
trade-IsSound c e delta t s = ground (
  arith,
  buy_shares-IsSound c e (pos_part delta) t s,
  sell_shares-IsSound c e (neg_part delta) t s,
)

pub settle-IsSound : (e : Entry) (t : Track) → IsSound t → Returns (settle e t) IsSound
unfolding settle
settle-IsSound e t s =
    let nav = nav_of t in
    let peak = max_ℤ t.peak nav in
    let n : pos 0 ≤ℤ nav = nav_of_nonneg t s in
    let below : nav ≤ℤ peak = ground arith in
    let high : pos 1 ≤ℤ peak = ground arith in
    let share = share_bounds (peak -ℤ nav) peak (omega int_laws) (omega int_laws) high in
    let held : pos 0 ≤ℤ t.positions.at_005930 +ℤ t.positions.at_000660 = omega int_laws in
    let states =
      All-append IsNonneg t.states (session_state e t ∷ []) s.states_nonneg
        ((s.cash_nonneg, held, n), tt) in
    ground (arith, n, high, share, states)

-- What `_validate` checks of the outcome that an entry is settled at.
abbrev pub IsPriced : Entry → Type 0
IsPriced e = 1 ≤ e.observation.price_krw

priced_divides : (e : Entry) → IsPriced e → divides_by_zero e ≡ false
unfolding divides_by_zero
priced_divides e h = ground arith

pub step-IsSound :
    (c : EvaluationConfig) (e : Entry) (t : Track)
    → IsPriced e
    → IsSound t
    → Returns (step c e t) IsSound
unfolding step
step-IsSound c e t p s =
    let seen = observe e t in
    let delta = desired_quantity c seen e -ℤ get seen.positions e.observation.symbol in
    rw (priced_divides e p) (
      settle-IsSound e (trade c e delta seen)
        (trade-IsSound c e delta seen (observe-IsSound e t s)))

pub run_from-IsSound :
    (c : EvaluationConfig) (es : List Entry) (t : Track)
    → All IsPriced es
    → IsSound t
    → Returns (run_from c es t) IsSound
unfolding run_from
run_from-IsSound c [] t p s = s
run_from-IsSound c (e ∷ es) t p s =
    >>=-Returns IsSound IsSound (step c e t) (run_from c es) (step-IsSound c e t p.0 s)
      (λ u. run_from-IsSound c es u p.1)

pub start-IsSound : (c : EvaluationConfig) → IsConfig c → IsSound (start c)
unfolding start
start-IsSound c h = ground arith

ending_nav_nonneg :
    (nav : ℤ) (states : List SessionState)
    → pos 0 ≤ℤ nav
    → All IsNonneg states
    → pos 0 ≤ℤ ending_nav nav states
unfolding ending_nav
ending_nav_nonneg nav [] h k = h
ending_nav_nonneg nav (s ∷ ss) h k = ending_nav_nonneg s.nav_krw ss k.0.2 k.1

-- A result in which nothing is negative and no ratio leaves its range.
pub record IsSoundResult (r : StrategyResult) : Type 0 where
  pub cash_nonneg : pos 0 ≤ℤ r.ending_cash_krw
  pub quantity_nonneg : pos 0 ≤ℤ r.ending_position_quantity
  pub nav_nonneg : pos 0 ≤ℤ r.ending_nav_krw
  pub dd_nonneg : pos 0 ≤ℤ r.max_drawdown_bps
  pub dd_bound : r.max_drawdown_bps ≤ℤ pos 10_000
  pub sessions_nonneg : All IsNonneg r.session_states

report_track-IsSoundResult :
    (c : EvaluationConfig) (es : List Entry) (t : Track)
    → IsSound t
    → IsSoundResult (report_track c es t)
unfolding report_track
report_track-IsSoundResult c es t s = record {
  cash_nonneg = s.cash_nonneg;
  quantity_nonneg = omega int_laws;
  nav_nonneg = ending_nav_nonneg (pos c.initial_cash_krw) t.states (omega arith) s.states_nonneg;
  dd_nonneg = s.dd_nonneg;
  dd_bound = s.dd_bound;
  sessions_nonneg = s.states_nonneg;
}

-- For every configuration that can be built and every schedule of positive prices, whatever its
-- actions, the run returns a result (neither the error "negative economic state forbidden" nor a
-- division by zero is raised): cash, position and value at the end and after each session are not
-- negative, and the largest drawdown lies between 0 and 10000 basis points.
pub run_returns_sound :
    (c : EvaluationConfig) (schedule : List Entry)
    → IsConfig c
    → All IsPriced schedule
    → Returns (run c schedule) IsSoundResult
unfolding run
run_returns_sound c schedule h p =
    >>=-Returns IsSound IsSoundResult (run_from c schedule (start c)) _
      (run_from-IsSound c schedule (start c) p (start-IsSound c h))
      (report_track-IsSoundResult c schedule)
