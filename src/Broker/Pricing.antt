-- ===== src/Broker/Pricing.antt =====
-- The broker and the evaluation price a fill by different formulas: where these agree.
use kronos_stock.Common.{
  ℕ, ◌+◌, ◌-◌, ◌*◌, ◌/◌, ◌≤◌, ◌≡◌, refl, ap, arith, if◌then◌else◌, ◌==◌, max, ◌⊎◌, inl, inr, suc,
  zero,
}
use kronos_stock.Symbols.{buy, sell}
use kronos_stock.Evaluation.Records.{EvaluationConfig}
use kronos_stock.Evaluation.Run.{ceil_bps, buy_price, sell_price}
use kronos_stock.Broker.Execute.{
  ExecutionPolicy, MarketObservation, ceil_div, slip_of, fill_price_of, fee_of, tax_of,
}

-- A policy that has the rates of a configuration.
pub record HasRates (c : EvaluationConfig) (p : ExecutionPolicy) : Type 0 where
  pub same_fee : p.fee_bps ≡ c.fee_bps
  pub same_tax : p.sell_tax_bps ≡ c.sell_tax_bps
  pub same_slippage : p.slippage_bps ≡ c.slippage_bps

-- What the broker charges and pays, in the terms of the evaluation.
pub record AgreesWith (c : EvaluationConfig) (p : ExecutionPolicy) (o : MarketObservation)
    : Type 0 where
  pub buy_agrees : fill_price_of p o buy ≡ buy_price c o.reference_price_krw
  pub sell_agrees :
      (fill_price_of p o sell ≡ sell_price c o.reference_price_krw)
      ⊎ ((fill_price_of p o sell ≡ 0) × (sell_price c o.reference_price_krw ≡ 1))
  pub fee_agrees : (gross : ℕ) → fee_of p gross ≡ ceil_bps gross c.fee_bps
  pub buy_untaxed : (gross : ℕ) → tax_of p buy gross ≡ 0
  pub tax_agrees : (gross : ℕ) → tax_of p sell gross ≡ ceil_bps gross c.sell_tax_bps

buy_price_agrees :
    (raw s : ℕ) → raw + (raw * s + 10_000 - 1) / 10_000 ≡ (raw * (10_000 + s) + 9_999) / 10_000
buy_price_agrees raw s = omega arith

sell_price_agrees :
    (raw s : ℕ) → s ≤ 10_000 → raw - (raw * s + 10_000 - 1) / 10_000 ≡ raw * (10_000 - s) / 10_000
sell_price_agrees raw s h =
    let rest : 10_000 - s + s ≡ 10_000 = omega arith in
    let whole : raw * (10_000 - s + s) ≡ raw * 10_000 = ap (λ n. raw * n) rest in omega arith

-- A price, and the evaluation's price of at least 1.
at_least_one : (n : ℕ) → (n ≡ max 1 n) ⊎ ((n ≡ 0) × (max 1 n ≡ 1))
at_least_one zero = inr (refl, refl)
at_least_one (suc n) = inl (ground arith)

charge_agrees :
    (gross bps : ℕ)
    → (if bps == 0 then 0 else (gross * bps + 10_000 - 1) / 10_000) ≡ (gross * bps + 9_999) / 10_000
charge_agrees gross bps = grind arith

-- If a policy has the rates of a configuration, and its slippage is at most 10000 basis points, then
-- for every observation and every amount the broker's price of a purchase, its fee and its tax are
-- those of the evaluation's run. So is its price of a sale, or else the broker's price is 0 (which it
-- refuses) where the evaluation sells at 1.
pub HasRates-AgreesWith :
    (c : EvaluationConfig) (p : ExecutionPolicy) (o : MarketObservation)
    → HasRates c p
    → p.slippage_bps ≤ 10_000
    → AgreesWith c p o
unfolding fill_price_of slip_of ceil_div fee_of tax_of ceil_bps buy_price sell_price
HasRates-AgreesWith c p o r h = record {
  buy_agrees = rw (← r.same_slippage) (buy_price_agrees o.reference_price_krw p.slippage_bps);
  sell_agrees =
      rw (← r.same_slippage, sell_price_agrees o.reference_price_krw p.slippage_bps h)
        (at_least_one (o.reference_price_krw * (10_000 - p.slippage_bps) / 10_000));
  fee_agrees = λ gross. rw (← r.same_fee) (charge_agrees gross p.fee_bps);
  buy_untaxed = λ gross. refl;
  tax_agrees = λ gross. rw (← r.same_tax) (charge_agrees gross p.sell_tax_bps);
}
