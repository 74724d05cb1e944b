-- ===== src/Risk/Approval.antt =====
-- What an approval of `evaluate_risk` rests on, and that it always returns.
use kronos_stock.Common.{
  ℕ, ◌+◌, ◌-◌, ◌*◌, ◌/◌, ◌≤◌, ◌<◌, ◌≡◌, ◌⊎◌, Bool, false, arith, IfOk, >>=-IfOk,
}
use kronos_stock.Symbols.{enter, reduce, exit, Side, buy, sell}
use kronos_stock.Risk.Records.{RiskPolicy, RiskInput}
use kronos_stock.Risk.Evaluate.{
  Plan, target_shares, plan_order, limit_cash, limit_position, limit_aggregate, check_limits,
  size_order,
}
use kronos_stock.Risk.Sizing.{
  IsPlan, Shape, IsPaid, Positioned, IsSized, HasRoom, other_value, position_cap, quotient_bound,
  room_bound, plan_order-IsPlan, limit_cash-IsPlan, limit_position-Positioned,
  limit_aggregate-IsSized,
}

module _ {V : Type 0} (r : RiskInput V) (p : RiskPolicy) where
  -- The account's daily limits and stops leave room for one more order, which is not too small.
  pub record IsWithinLimits (quantity : ℕ) : Type 0 where
    pub orders_left : r.daily_order_count < p.daily_order_cap
    pub fills_left : r.daily_fill_count < p.daily_fill_cap
    pub loss_below_stop : r.session_start_nav_krw < r.nav_krw + p.daily_loss_stop_krw
    pub drawdown_below_stop :
        (r.high_water_nav_krw - r.nav_krw) * 10_000 < r.high_water_nav_krw * p.drawdown_stop_bps
    pub some_shares : 1 ≤ quantity
    pub large_enough : p.min_notional_krw ≤ quantity * r.price_krw

  abbrev pub IsAllowed : Plan → Type 0
  IsAllowed o = IsSized r p o × IsWithinLimits o.quantity

  check_limits-IsAllowed : (o : Plan) → IsSized r p o → IfOk (check_limits r p o) IsAllowed
  unfolding check_limits
  check_limits-IsAllowed o h = ground arith

  pub size_order-IsAllowed : IfOk (size_order r p) IsAllowed
  unfolding size_order
  size_order-IsAllowed =
      >>=-IfOk (IsPlan r p) IsAllowed (plan_order r) _ (plan_order-IsPlan r p) λ o₁ h₁.
        >>=-IfOk (λ o. IsPlan r p o × IsPaid r p o.side o.quantity) IsAllowed (limit_cash r o₁) _
          (limit_cash-IsPlan r p o₁ h₁)
          λ o₂ h₂.
            >>=-IfOk (Positioned r p) IsAllowed (limit_position r p o₂) _
              (limit_position-Positioned r p o₂ h₂)
              λ o₃ h₃.
                >>=-IfOk (IsSized r p) IsAllowed (limit_aggregate r p o₃) _
                  (limit_aggregate-IsSized r p o₃ h₃) check_limits-IsAllowed

  -- The order that an approval of `quantity` shares stands for, in money.
  abbrev pub Trade : Side → (quantity : ℕ) → Bool → Type 0
  Trade buy quantity resized =
      (r.action ≡ enter)
      × (quantity * r.price_krw ≤ r.cash_krw)
      × (r.holdings_quantity + quantity ≤ target_shares r)
      × (resized ≡ false → r.holdings_quantity + quantity ≡ target_shares r)
      × ((r.holdings_quantity + quantity) * r.price_krw * 10_000 ≤ r.nav_krw * p.max_position_bps)
      × ((other_value r p + (r.holdings_quantity + quantity) * r.price_krw) * 10_000
          ≤ r.nav_krw * p.max_aggregate_bps)
  Trade sell quantity resized =
      (quantity ≤ r.holdings_quantity)
      × (resized ≡ false)
      × ((r.action ≡ exit) × (quantity ≡ r.holdings_quantity)
          ⊎ (r.action ≡ reduce) × (target_shares r + quantity ≡ r.holdings_quantity))

  pub sized-Trade :
      (s : Side) (desired quantity : ℕ) (resized : Bool)
      → Shape r p s desired quantity resized
      → IsPaid r p s quantity
      → desired ≤ position_cap r p
      → desired ≤ (r.nav_krw * p.max_aggregate_bps / 10_000 - other_value r p) / r.price_krw
      → HasRoom r p s
      → Trade s quantity resized
  sized-Trade buy d q b shape paid low high room =
      let position = quotient_bound d (r.nav_krw * p.max_position_bps) r.price_krw low in
      let aggregate =
        room_bound d (r.nav_krw * p.max_aggregate_bps) (other_value r p) r.price_krw room high in
      rw (← shape.1) (shape.0, paid, shape.2, shape.3, position, aggregate)
  sized-Trade sell d q b shape paid low high room = ground arith
