-- ===== src/Risk/Sizing.antt =====
-- What the sizing of an order keeps, step by step.
use native.Mathlib.Nat.{div-mul-le_self, mul-le-mul_right, le_trans}
use kronos_stock.Common.{
  ℕ, ◌+◌, ◌-◌, ◌*◌, ◌/◌, ◌≤◌, ◌<◌, ◌≡◌, Bool, false, arith, IfOk, IfOk_map, raise_if-IfOk_then,
  raise_if-IfOk_passed, ltb, ◌&&◌, ◌⊎◌,
}
use kronos_stock.Symbols.{enter, reduce, exit, Side, buy, sell}
use kronos_stock.Risk.Records.{RiskPolicy, RiskInput, position_limit, exposure_limit, RejectReason}
use kronos_stock.Risk.Evaluate.{
  Plan, rejected, is_buy, target_shares, plan_order, limit_cash, cap_quantity, limit_position,
  limit_aggregate,
}

-- A value that a quotient of a quotient allows, before the divisions.
pub quotient_bound :
    (n amount price : ℕ) → n ≤ amount / 10_000 / price → n * price * 10_000 ≤ amount
quotient_bound n amount price h =
    let whole = div-mul-le_self (amount / 10_000) price in
    let scaled = mul-le-mul_right price h in omega (arith, whole, scaled)

pub room_bound :
    (n amount other price : ℕ)
    → other * 10_000 ≤ amount
    → n ≤ (amount / 10_000 - other) / price
    → (other + n * price) * 10_000 ≤ amount
room_bound n amount other price h k =
    let whole = div-mul-le_self (amount / 10_000 - other) price in
    let scaled = mul-le-mul_right price k in omega (arith, whole, scaled)

module _ {V : Type 0} (r : RiskInput V) (p : RiskPolicy) where
  -- A purchase stays within the target; a sale is an exit, or reduces to the target.
  abbrev pub Shape : Side → (desired quantity : ℕ) → Bool → Type 0
  Shape buy desired quantity resized =
      (r.action ≡ enter)
      × (desired ≡ r.holdings_quantity + quantity)
      × (desired ≤ target_shares r)
      × (resized ≡ false → desired ≡ target_shares r)
  Shape sell desired quantity resized =
      (desired + quantity ≡ r.holdings_quantity)
      × (resized ≡ false)
      × ((r.action ≡ exit) × (desired ≡ 0) ⊎ (r.action ≡ reduce) × (desired ≡ target_shares r))

  pub record IsPlan (o : Plan) : Type 0 where
    pub some_shares : 1 ≤ o.quantity
    pub shape : Shape o.side o.desired o.quantity o.resized

  pub plan_order-IsPlan : IfOk (plan_order r) IsPlan
  unfolding plan_order
  plan_order-IsPlan = ground arith

  -- The plan's purchase is paid for from the cash.
  abbrev pub IsPaid : Side → ℕ → Type 0
  IsPaid buy quantity = quantity * r.price_krw ≤ r.cash_krw
  IsPaid sell quantity = Unit

  fewer_shares : (q : ℕ) → r.cash_krw < q * r.price_krw → r.cash_krw / r.price_krw ≤ q
  fewer_shares q h = let whole = div-mul-le_self r.cash_krw r.price_krw in grind arith

  pub limit_cash-IsPlan :
      (o : Plan) → IsPlan o → IfOk (limit_cash r o) (λ o'. IsPlan o' × IsPaid o'.side o'.quantity)
  unfolding limit_cash
  limit_cash-IsPlan o h =
      ground (arith, fewer_shares o.quantity, div-mul-le_self r.cash_krw r.price_krw)

  abbrev IsCapped : ℕ → Plan → Plan → Type 0
  IsCapped cap o o' =
      IsPlan o'
      × (o'.desired ≤ cap)
      × (o'.quantity ≤ o.quantity)
      × (o'.side ≡ o.side)
      × (o'.desired ≤ o.desired)

  cap_quantity-IsCapped :
      (cap : ℕ) (reason : RejectReason) (o : Plan)
      → IsPlan o
      → IfOk (cap_quantity r cap reason o) (IsCapped cap o)
  unfolding cap_quantity
  cap_quantity-IsCapped cap reason o h = ground arith

  -- The shares that the caps allow.
  abbrev pub position_cap : ℕ
  position_cap = r.nav_krw * p.max_position_bps / 10_000 / r.price_krw

  abbrev pub other_value : ℕ
  other_value = r.aggregate_position_value_krw - r.holdings_quantity * r.price_krw

  abbrev pub aggregate_cap : ℕ
  aggregate_cap = (r.nav_krw * p.max_aggregate_bps / 10_000 - other_value) / r.price_krw

  -- A purchase is not made where the other positions alone are above the aggregate cap.
  abbrev pub HasRoom : Side → Type 0
  HasRoom buy = other_value * 10_000 ≤ r.nav_krw * p.max_aggregate_bps
  HasRoom sell = Unit

  pub record IsSized (o : Plan) : Type 0 where
    pub planned : IsPlan o
    pub paid : IsPaid o.side o.quantity
    pub within_position : o.desired ≤ position_cap
    pub within_aggregate : o.desired ≤ aggregate_cap
    pub room : HasRoom o.side

  -- Fewer shares of the same side are paid for as well.
  IsPaid-fewer : (s t : Side) (m n : ℕ) → s ≡ t → m ≤ n → IsPaid t n → IsPaid s m
  IsPaid-fewer buy buy m n e h k = le_trans (mul-le-mul_right r.price_krw h) k
  IsPaid-fewer buy sell m n e h k = cc
  IsPaid-fewer sell t m n e h k = tt

  abbrev pub Positioned : Plan → Type 0
  Positioned o = IsPlan o × IsPaid o.side o.quantity × (o.desired ≤ position_cap)

  pub limit_position-Positioned :
      (o : Plan) → IsPlan o × IsPaid o.side o.quantity → IfOk (limit_position r p o) Positioned
  unfolding limit_position
  limit_position-Positioned o h = raise_if-IfOk_then Positioned _ (rejected position_limit) _ (
      IfOk_map (IsCapped position_cap o) Positioned (cap_quantity r position_cap position_limit o)
        (cap_quantity-IsCapped position_cap position_limit o h.0)
        λ o' c. (c.0, IsPaid-fewer o'.side o.side o'.quantity o.quantity c.3 c.2 h.1, c.1))

  same_room : (s t : Side) → s ≡ t → HasRoom t → HasRoom s
  same_room buy buy e h = h
  same_room buy sell e h = cc
  same_room sell t e h = tt

  room_of :
      (s : Side)
      → (ltb (r.nav_krw * p.max_aggregate_bps) (other_value * 10_000) && is_buy s) ≡ false
      → HasRoom s
  room_of buy h = ground arith
  room_of sell h = tt

  pub limit_aggregate-IsSized : (o : Plan) → Positioned o → IfOk (limit_aggregate r p o) IsSized
  unfolding limit_aggregate
  limit_aggregate-IsSized o h =
      raise_if-IfOk_passed IsSized
        (ltb (r.nav_krw * p.max_aggregate_bps) (other_value * 10_000) && is_buy o.side)
        (rejected exposure_limit) _
        λ passed.
          IfOk_map (IsCapped aggregate_cap o) IsSized
            (cap_quantity r aggregate_cap exposure_limit o)
            (cap_quantity-IsCapped aggregate_cap exposure_limit o h.0)
            λ o' c. record {
              planned = c.0;
              paid = IsPaid-fewer o'.side o.side o'.quantity o.quantity c.3 c.2 h.1;
              within_position = le_trans c.4 h.2;
              within_aggregate = c.1;
              room = same_room o'.side o.side c.3 (room_of o.side passed);
            }
