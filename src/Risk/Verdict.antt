-- ===== src/Risk/Verdict.antt =====
-- The promise of `evaluate_risk`: it always returns, and an approval is justified.
use kronos_stock.Common.{
  ℕ, ◌≡◌, ◌≢◌, ◌⊎◌, inl, inr, refl, Bool, true, false, String, Option, none, some, Result, ok, err,
  arith, IfOk, IfOk_map, Returns, >>=-IfOk, ◌>>=◌, if◌then◌else◌,
}
use kronos_stock.Common.Time.{nine_hours, is_sha256}
use kronos_stock.Symbols.{Side}
use kronos_stock.Features.Records.{NumberOps, SymbolFeatureOutput}
use kronos_stock.Risk.Records.{
  RiskPolicy, RiskInput, Verdict, approve, resize, reject, no_op, RiskResult, make_input,
  make_result, bad_result, bad_label, untimely, RiskError,
}
use kronos_stock.Risk.Evaluate.{
  Exit, rejected, nothing, raised, Plan, plan_order, limit_cash, limit_position, limit_aggregate,
  check_limits, size_order, check_state, conclude, approval, rejection, no_operation, evaluate_risk,
}
use kronos_stock.Risk.Freshness.{
  IsCurrent, RaisesOnly, >>=-RaisesOnly, check_state-IsCurrent, check_state-RaisesOnly, Unreadable,
}
use kronos_stock.Risk.Approval.{IsWithinLimits, IsAllowed, size_order-IsAllowed, Trade, sized-Trade}

plan_order-RaisesOnly : {V : Type 0} (U : Type 0) (r : RiskInput V) → RaisesOnly U (plan_order r)
unfolding plan_order
plan_order-RaisesOnly U r = ground arith

module _ {V : Type 0} (U : Type 0) (r : RiskInput V) (p : RiskPolicy) where
  limit_cash-RaisesOnly : (o : Plan) → RaisesOnly U (limit_cash r o)
  unfolding limit_cash
  limit_cash-RaisesOnly o = ground arith

  limit_position-RaisesOnly : (o : Plan) → RaisesOnly U (limit_position r p o)
  unfolding limit_position
  limit_position-RaisesOnly o = ground arith

  limit_aggregate-RaisesOnly : (o : Plan) → RaisesOnly U (limit_aggregate r p o)
  unfolding limit_aggregate
  limit_aggregate-RaisesOnly o = ground arith

  check_limits-RaisesOnly : (o : Plan) → RaisesOnly U (check_limits r p o)
  unfolding check_limits
  check_limits-RaisesOnly o = ground arith

  any_plan : (m : Result Exit Plan) → IfOk m (λ o. Unit)
  any_plan (ok o) = tt
  any_plan (err e) = tt

  size_order-RaisesOnly : RaisesOnly U (size_order r p)
  unfolding size_order
  size_order-RaisesOnly =
      let Q : Plan → Type 0 = λ o. Unit in
      >>=-RaisesOnly U Q (plan_order r) _ (any_plan (plan_order r)) (plan_order-RaisesOnly U r)
        λ o₁ u₁.
          >>=-RaisesOnly U Q (limit_cash r o₁) _ (any_plan (limit_cash r o₁))
            (limit_cash-RaisesOnly o₁)
            λ o₂ u₂.
              >>=-RaisesOnly U Q (limit_position r p o₂) _ (any_plan (limit_position r p o₂))
                (limit_position-RaisesOnly o₂)
                λ o₃ u₃.
                  >>=-RaisesOnly U Q (limit_aggregate r p o₃) _ (any_plan (limit_aggregate r p o₃))
                    (limit_aggregate-RaisesOnly o₃) λ o₄ u₄. check_limits-RaisesOnly o₄

-- The times of an input that `RiskInput` accepts can be read.
input_times :
    {V : Type 0} (ops : NumberOps V) (digest : SymbolFeatureOutput V → String) (r : RiskInput V)
    {s : RiskInput V}
    → make_input ops digest r ≡ ok s
    → ((nine_hours r.decision_at.reading ≢ none) × (bad_label r.decision_at.text ≡ false))
      × ((nine_hours r.available_data_cutoff.reading ≢ none)
          × (bad_label r.available_data_cutoff.text ≡ false))
unfolding make_input untimely
input_times ops digest r h = ground arith

module _ {V : Type 0} (ops : NumberOps V) (id : SymbolFeatureOutput V → String) (r : RiskInput V)
    (p : RiskPolicy) where
  -- A result is of the shape that its verdict wants; if it approves a quantity, then the state is
  -- current, the limits leave room, and the quantity is a purchase or a sale that the holdings,
  -- the cash and the caps allow, cut down exactly if the verdict is RESIZE.
  abbrev pub Approves : Option ℕ → Verdict → Type 0
  Approves none v = (v ≡ reject) ⊎ (v ≡ no_op)
  Approves (some q) v =
      IsCurrent ops id r p
      × IsWithinLimits r p q
      × ((side : Side) × (resized : Bool) × Trade r p side q resized
          × (v ≡ (if resized then resize else approve)))

  abbrev pub IsJustified : RiskResult → Type 0
  IsJustified res = (bad_result res ≡ false) × Approves res.approved_quantity res.verdict

  -- A justified result, or an exception for a window or a time's text that cannot be read.
  abbrev pub Concludes : Result RiskError RiskResult → Type 0
  Concludes (ok res) = IsJustified res
  Concludes (err e) = Unreadable ops id r p

  returned : (m : Result RiskError RiskResult) → Returns m IsJustified → Concludes m
  returned (ok res) h = h
  returned (err e) h = absurd h

  allowed-Trade : (o : Plan) → IsAllowed r p o → Trade r p o.side o.quantity o.resized
  allowed-Trade o h =
      sized-Trade r p o.side o.desired o.quantity o.resized h.0.planned.shape h.0.paid
        h.0.within_position h.0.within_aggregate h.0.room

  made :
      (res : RiskResult)
      → bad_result res ≡ false
      → Approves res.approved_quantity res.verdict
      → Returns (make_result res) IsJustified
  unfolding make_result
  made res shape h = rw shape (shape, h)

  conclude-IsJustified :
      (sha : String) (m : Result Exit Plan)
      → is_sha256 sha ≡ true
      → IfOk m (λ o. IsCurrent ops id r p × IsAllowed r p o)
      → RaisesOnly (Unreadable ops id r p) m
      → Concludes (conclude sha m)
  unfolding conclude bad_result
  conclude-IsJustified sha (ok o) s h n =
      let some_shares = h.1.1.some_shares in
      returned (make_result (approval sha o)) (
        made (approval sha o) (ground arith)
          (h.0, h.1.1, (o.side, o.resized, allowed-Trade o h.1, refl)))
  conclude-IsJustified sha (err (rejected reason)) s h n =
      returned (make_result (rejection sha reason))
        (made (rejection sha reason) (ground arith) (inl refl))
  conclude-IsJustified sha (err nothing) s h n =
      returned (make_result (no_operation sha)) (made (no_operation sha) (ground arith) (inr refl))
  conclude-IsJustified sha (err (raised e)) s h n = n

  sized :
      IfOk
        (check_state ops id r p >>= λ u. size_order r p)
        (λ o. IsCurrent ops id r p × IsAllowed r p o)
  sized =
      >>=-IfOk (λ u. IsCurrent ops id r p) (λ o. IsCurrent ops id r p × IsAllowed r p o)
        (check_state ops id r p) (λ u. size_order r p) (check_state-IsCurrent ops id r p)
        (λ u current.
          IfOk_map (IsAllowed r p) _ (size_order r p) (size_order-IsAllowed r p)
            (λ o allowed. (current, allowed)))

-- For every input that `RiskInput` accepts, every policy, and digests that are SHA-256 texts,
-- `evaluate_risk` returns a result of the shape that its verdict wants, or it raises and the policy's
-- window of age is longer than a `timedelta` holds, or the text of some feature's time is empty or
-- longer than 256 characters. If it approves a quantity (by APPROVE or RESIZE), then trading is
-- enabled, the kill switch is off, the session is no duplicate, the snapshot is eligible, and the data
-- cutoff and each feature lie in the policy's window of age; an order and a fill are left for the day,
-- and loss and drawdown are below their stops; the quantity is positive and worth the least notional. A
-- purchase belongs to the action ENTER, is covered by the cash, does not exceed the target, and leaves
-- position and aggregate within their caps; unless it is resized it meets the target exactly. A sale
-- is never resized or more than is held: EXIT sells all, and REDUCE sells down to the target.
pub evaluate_risk-IsJustified :
    {V : Type 0} (ops : NumberOps V) (id digest : SymbolFeatureOutput V → String)
    (policy_sha256 : RiskPolicy → String) (r : RiskInput V) (p : RiskPolicy) {s : RiskInput V}
    → make_input ops digest r ≡ ok s
    → is_sha256 (policy_sha256 p) ≡ true
    → Concludes ops id r p (evaluate_risk ops id policy_sha256 r p)
unfolding evaluate_risk
evaluate_risk-IsJustified ops id digest policy_sha256 r p valid sha =
    let U = Unreadable ops id r p in
    let (d, c) = input_times ops digest r valid in
    conclude-IsJustified ops id r p (policy_sha256 p)
      (check_state ops id r p >>= λ u. size_order r p) sha (sized ops id r p)
      (>>=-RaisesOnly U (λ u. IsCurrent ops id r p) (check_state ops id r p) (λ u. size_order r p)
        (check_state-IsCurrent ops id r p) (check_state-RaisesOnly ops id r p d c)
        (λ u current. size_order-RaisesOnly U r p))
