-- ===== src/Evaluation/Adverse.antt =====
-- The fills of a run are never better than the market.
use native.Mathlib.Nat.{mul-le-mul_left}
use kronos_stock.Common.{
  ℕ, zero, suc, ◌+◌, ◌-◌, ◌*◌, ◌≤◌, ◌<◌, ◌≡◌, refl, List, [], ◌∷◌, arith, All, All-append, Returns,
  IfOk, raise_if-IfOk, raise_if-IfOk_then, >>=-IfOk, Returns-IfOk, >>=-Returns,
}
use kronos_stock.Common.Int.{ℤ, pos, negsuc, ◌-ℤ◌}
use kronos_stock.Symbols.{get, buy, sell}
use kronos_stock.Evaluation.Records.{
  EvaluationConfig, IsConfig, Fill, negative_state, zero_division,
}
use kronos_stock.Evaluation.Run.{
  Entry, Track, ceil_bps, buy_price, sell_price, desired_quantity, buy_fill, buy_shares,
  sell_shares, sell_fill, trade, observe, settle, step, run_from, start, run, report_track,
  divides_by_zero,
}
use kronos_stock.Evaluation.Soundness.{IsSound, IsPriced, run_from-IsSound, start-IsSound}

-- `charge` is `amount * bps / 10000`, rounded up.
abbrev pub IsRoundedUp : ℕ → ℕ → ℕ → Type 0
IsRoundedUp amount bps charge =
    (amount * bps ≤ charge * 10_000) × (charge * 10_000 < amount * bps + 10_000)

-- A fill that a careful reader of the assumptions expects: shares were moved; a purchase costs the
-- market's price with the slippage, rounded up, and no tax; a sale brings no more than the
-- market's price; fee and tax are rounded up.
abbrev pub IsAdverse : EvaluationConfig → Fill → Type 0
IsAdverse c f =
    (1 ≤ f.quantity)
    × IsRoundedUp (f.quantity * f.fill_price_krw) c.fee_bps f.fee_krw
    × elim f.side [
      | buy ↦
          (f.raw_price_krw ≤ f.fill_price_krw)
          × IsRoundedUp f.raw_price_krw (10_000 + c.slippage_bps) f.fill_price_krw
          × (f.tax_krw ≡ 0)
      | sell ↦
          (f.fill_price_krw ≤ f.raw_price_krw)
          × (1 ≤ f.fill_price_krw)
          × IsRoundedUp (f.quantity * f.fill_price_krw) c.sell_tax_bps f.tax_krw
    ]

pub ceil_bps-IsRoundedUp : (amount bps : ℕ) → IsRoundedUp amount bps (ceil_bps amount bps)
unfolding ceil_bps
ceil_bps-IsRoundedUp amount bps = omega arith

buy_fill-IsAdverse :
    (c : EvaluationConfig) (e : Entry) (n : ℕ) → 1 ≤ n → IsAdverse c (buy_fill c e n)
unfolding buy_fill buy_price
buy_fill-IsAdverse c e n h = (h, ceil_bps-IsRoundedUp _ _, (omega arith, omega arith, refl))

sell_price_bounds :
    (c : EvaluationConfig) (raw : ℕ) → 1 ≤ raw → (sell_price c raw ≤ raw) × (1 ≤ sell_price c raw)
unfolding sell_price
sell_price_bounds c raw h =
    let part : 10_000 - c.slippage_bps ≤ 10_000 = omega arith in
    let discounted : raw * (10_000 - c.slippage_bps) ≤ raw * 10_000 = mul-le-mul_left raw part in
    ground arith

sell_fill-IsAdverse :
    (c : EvaluationConfig) (e : Entry) (n : ℕ) → IsPriced e → 1 ≤ n → IsAdverse c (sell_fill c e n)
unfolding sell_fill
sell_fill-IsAdverse c e n p h =
    let (low, high) = sell_price_bounds c e.observation.price_krw p in
    (h, ceil_bps-IsRoundedUp _ _, (low, high, ceil_bps-IsRoundedUp _ _))

buy_shares-IsAdverse :
    (c : EvaluationConfig) (e : Entry) (n : ℕ) (t : Track)
    → 1 ≤ n
    → All (IsAdverse c) t.fills
    → All (IsAdverse c) (buy_shares c e n t).fills
unfolding buy_shares
buy_shares-IsAdverse c e n t n_pos h =
    let more =
      All-append (IsAdverse c) t.fills (buy_fill c e n ∷ []) h
        (buy_fill-IsAdverse c e n n_pos, tt) in
    ground (arith, more)

sell_shares-IsAdverse :
    (c : EvaluationConfig) (e : Entry) (n : ℕ) (t : Track)
    → IsPriced e
    → 1 ≤ n
    → All (IsAdverse c) t.fills
    → All (IsAdverse c) (sell_shares c e n t).fills
unfolding sell_shares
sell_shares-IsAdverse c e n t p n_pos h =
    let more =
      All-append (IsAdverse c) t.fills (sell_fill c e n ∷ []) h
        (sell_fill-IsAdverse c e n p n_pos, tt) in
    ground (arith, more)

trade-IsAdverse :
    (c : EvaluationConfig) (e : Entry) (delta : ℤ) (t : Track)
    → IsPriced e
    → All (IsAdverse c) t.fills
    → All (IsAdverse c) (trade c e delta t).fills
unfolding trade
trade-IsAdverse c e (pos zero) t p h = h
trade-IsAdverse c e (pos (suc n)) t p h =
    ground (arith, buy_shares-IsAdverse c e (suc n) t (omega arith) h)
trade-IsAdverse c e (negsuc n) t p h =
    ground (arith, sell_shares-IsAdverse c e (suc n) t p (omega arith) h)

abbrev AllAdverse : EvaluationConfig → Track → Type 0
AllAdverse c t = All (IsAdverse c) t.fills

settle-AllAdverse :
    (c : EvaluationConfig) (e : Entry) (t : Track)
    → AllAdverse c t
    → IfOk (settle e t) (AllAdverse c)
unfolding settle
settle-AllAdverse c e t h = raise_if-IfOk (AllAdverse c) _ negative_state _ h

step-AllAdverse :
    (c : EvaluationConfig) (e : Entry) (t : Track)
    → IsPriced e
    → AllAdverse c t
    → IfOk (step c e t) (AllAdverse c)
unfolding step observe
step-AllAdverse c e t p h =
    let seen = observe e t in
    let delta = desired_quantity c seen e -ℤ get seen.positions e.observation.symbol in
    raise_if-IfOk_then (AllAdverse c) (divides_by_zero e) zero_division _
      (settle-AllAdverse c e (trade c e delta seen) (trade-IsAdverse c e delta seen p h))

run_from-AllAdverse :
    (c : EvaluationConfig) (es : List Entry) (t : Track)
    → All IsPriced es
    → AllAdverse c t
    → IfOk (run_from c es t) (AllAdverse c)
unfolding run_from
run_from-AllAdverse c [] t p h = h
run_from-AllAdverse c (e ∷ es) t p h =
    >>=-IfOk (AllAdverse c) (AllAdverse c) (step c e t) (run_from c es)
      (step-AllAdverse c e t p.0 h) (λ u. run_from-AllAdverse c es u p.1)

-- For every configuration that can be built and every schedule of positive prices the run returns
-- a result each of whose fills moves at least one share; is charged a fee that is its amount's
-- share in basis points rounded up to a whole won; if it is a purchase, is at least as dear as the
-- observed price, which is raised by the slippage and rounded up, and bears no tax; if it is a
-- sale, is at a positive price that is no higher than the observed one, and bears a tax that is
-- its amount's share rounded up.
pub run_fills-IsAdverse :
    (c : EvaluationConfig) (schedule : List Entry)
    → IsConfig c
    → All IsPriced schedule
    → Returns (run c schedule) (λ r. All (IsAdverse c) r.fills)
unfolding run start report_track
run_fills-IsAdverse c schedule h p =
    let sound = run_from-IsSound c schedule (start c) p (start-IsSound c h) in
    let adverse = run_from-AllAdverse c schedule (start c) p tt in
    >>=-Returns (AllAdverse c) (λ r. All (IsAdverse c) r.fills) (run_from c schedule (start c)) _
      (Returns-IfOk IsSound _ (run_from c schedule (start c)) sound adverse) (λ t r. r)
