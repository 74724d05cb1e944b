-- ===== src/Review/Input.antt =====
-- The input that `review_and_persist` of strategy/paper_risk.py evaluates.
use kronos_stock.Common.{
  ℕ, ◌≡◌, inl, inr, refl, ap, some, Result, ok, err, or_raise, IfOk, IfOk_map, IfOk_both, >>=-IfOk,
  after-IfOk, or_raise-IfOk, arith, IfOk_self, ◌∙◌,
}
use kronos_stock.Common.Int.{ℤ, pos}
use kronos_stock.Risk.Records.{RiskInput, RiskError, not_positive, make_input}
use kronos_stock.Review.Records.{
  Portfolio, Authoritative, Reviewing, natural, risk_error, from_risk,
}
use kronos_stock.Review.Persist.{with_gate, with_portfolio, authoritative_input}
use kronos_stock.Common.{Option-cases, sym, subst}

-- Two requests that differ in the portfolio at most.
abbrev pub Revalues : {V : Type 0} → RiskInput V → RiskInput V → Type 0
Revalues x y = y ≡ record x {
  price_krw = y.price_krw;
  cash_krw = y.cash_krw;
  holdings_quantity = y.holdings_quantity;
  aggregate_position_value_krw = y.aggregate_position_value_krw;
  nav_krw = y.nav_krw;
  high_water_nav_krw = y.high_water_nav_krw;
  session_start_nav_krw = y.session_start_nav_krw;
  daily_order_count = y.daily_order_count;
  daily_fill_count = y.daily_fill_count;
}

module _ {V : Type 0} (env : Reviewing V) (r : RiskInput V) where
  -- An accepted input, which is the request with the gate's flags and the portfolio's values.
  pub record IsInput (state : Authoritative) (input : RiskInput V) : Type 0 where
    pub valid : make_input env.ops env.snapshot_digest input ≡ ok input
    pub revalues : Revalues (with_gate env state.gate r) input
    pub cash : (p : Portfolio) → state.portfolio ≡ some p → p.cash_krw ≡ pos input.cash_krw

  make_input-same : (x : RiskInput V) → IfOk (make_input env.ops env.snapshot_digest x) (λ y. y ≡ x)
  unfolding make_input
  make_input-same x = search (after-IfOk) depth 20

  natural-some : (z : ℤ) (n : ℕ) → natural z ≡ some n → z ≡ pos n
  natural-some z n h = ground arith

  with_portfolio-Revalues :
      (p : Portfolio) (x : RiskInput V)
      → IfOk (with_portfolio env p x) (λ y. Revalues x y × (p.cash_krw ≡ pos y.cash_krw))
  unfolding with_portfolio
  with_portfolio-Revalues p x =
      after-IfOk _ (or_raise (natural p.price_krw) (risk_error not_positive)) _ λ price.
        >>=-IfOk _ _ (or_raise (natural p.cash_krw) (risk_error not_positive)) _
          (or_raise-IfOk (natural p.cash_krw) (risk_error not_positive))
          λ cash e.
            let covered : p.cash_krw ≡ pos cash = natural-some p.cash_krw cash e in
            search (after-IfOk, covered) depth 20

  from_risk-IfOk :
      {A : Type 0} (P : A → Type 0) (m : Result RiskError A) → IfOk m P → IfOk (from_risk m) P
  from_risk-IfOk P (ok a) h = h
  from_risk-IfOk P (err e) h = tt

  accepted :
      (x : RiskInput V)
      → IfOk
          (from_risk (make_input env.ops env.snapshot_digest x))
          (λ y. (make_input env.ops env.snapshot_digest y ≡ ok y) × (y ≡ x))
  accepted x = from_risk-IfOk _ (make_input env.ops env.snapshot_digest x) (
      IfOk_map _ _ (make_input env.ops env.snapshot_digest x)
        (IfOk_both _ _ (make_input env.ops env.snapshot_digest x)
          (IfOk_self (make_input env.ops env.snapshot_digest x)) (make_input-same x))
        λ y (e, h). (ap (λ z. make_input env.ops env.snapshot_digest z) h ∙ e, h))

  pub authoritative_input-IsInput :
      (state : Authoritative) → IfOk (authoritative_input env state r) (IsInput state)
  unfolding authoritative_input
  authoritative_input-IsInput state =
      >>=-IfOk _ _ (from_risk (make_input env.ops env.snapshot_digest (with_gate env state.gate r)))
        _ (accepted (with_gate env state.gate r))
        λ flagged (valid, e). elim (Option-cases state.portfolio) [
          | inl closed ↦
              rw closed (record { valid = valid; revalues = rw e refl; cash = λ p h. ground arith })
          | inr (p, read) ↦ rw read (
              >>=-IfOk _ _ (with_portfolio env p flagged) _ (with_portfolio-Revalues p flagged)
                λ y (revalued, covered).
                  IfOk_map _ _ (from_risk (make_input env.ops env.snapshot_digest y)) (accepted y)
                    λ z (valid', e'). record {
                      valid = valid';
                      revalues =
                          subst (λ x. Revalues x z) e
                            (subst (λ w. Revalues flagged w) (sym e') revalued);
                      cash = λ q h. cc;
                    })
        ]
