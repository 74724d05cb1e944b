-- ===== src/Risk/Evaluate.antt =====
-- `evaluate_risk` of strategy/paper_risk.py, in its order. The steps before the verdict either go
-- on, or leave with a rejection, with nothing to do, or with an exception.
use kronos_stock.Common.{
  ℕ, ◌+◌, ◌-◌, ◌*◌, ◌/◌, String, List, [], ◌∷◌, Bool, true, false, not, ◌&&◌, ◌||◌, ◌==◌, Option,
  none, some, Result, ok, err, raise_if, or_raise, ◌>>=◌, ◌>>◌, if◌then◌else◌, ltb, leb, any,
}
use kronos_stock.Common.Time.{Moment, Timestamp, nine_hours, seconds}
use kronos_stock.Symbols.{enter, reduce, exit, Side, buy, sell}
use kronos_stock.Features.Records.{NumberOps, SymbolFeatureOutput, EngineFeature, group_order}
use kronos_stock.Features.Eligibility.{rows_of, pre_model_abstain_reason}
use kronos_stock.Risk.Records.{
  RiskPolicy, RiskInput, RejectReason, trading_disabled, kill_switch_active, duplicate_session,
  stale_data, invalid_action, insufficient_cash, insufficient_position, position_limit,
  exposure_limit, daily_fill_limit, daily_loss_stop, drawdown_stop, min_notional, approve, resize,
  reject, no_op, RiskResult, RiskError, bad_time, bad_label, long_duration, make_result,
}

pub data Exit : Type 0 where
  rejected : RejectReason → Exit
  nothing : Exit
  raised : RiskError → Exit

-- The local variables `desired`, `side`, `quantity` and `resized`.
pub record Plan : Type 0 where
  pub desired : ℕ
  pub side : Side
  pub quantity : ℕ
  pub resized : Bool

-- `if test: return _result(policy, "REJECT", reason=...)`
abbrev pub reject_if : Bool → RejectReason → Result Exit (Unit {0})
reject_if test reason = raise_if test (rejected reason)

-- `_kst_time`
unfoldable pub kst_time : Timestamp → Result Exit Moment
unfolding bad_label
kst_time t = do
  raise_if (bad_label t.text) (raised bad_time)
  or_raise (nine_hours t.reading) (raised bad_time)

-- The most seconds that a `timedelta` holds: 999999999 days and a day less a second.
abbrev pub longest_duration : ℕ
longest_duration = 86_399_999_999_999

module _ {V : Type 0} where
  unfoldable pub observations : List (EngineFeature V) → Result Exit (List Moment)
  unfolding kst_time
  observations [] = ok []
  observations (f ∷ fs) = do m ← kst_time f.source_as_of; ms ← observations fs; ok (m ∷ ms)

-- `obs > cutoff or cutoff - obs > max_age`
abbrev pub out_of_window : ℕ → Moment → Moment → Bool
out_of_window max_age cutoff observed =
    ltb cutoff.instant observed.instant || ltb (observed.instant + max_age) cutoff.instant

abbrev pub is_buy : Side → Bool
is_buy buy = true
is_buy sell = false

abbrev pub is_nil {ℓ} : {A : Type ℓ} → List A → Bool
is_nil [] = true
is_nil (x ∷ xs) = false

abbrev pub is_some {ℓ} : {A : Type ℓ} → Option A → Bool
is_some none = false
is_some (some a) = true

module _ {V : Type 0} (ops : NumberOps V)
    (canonical_output_id : SymbolFeatureOutput V → String) where
  -- The switches and the freshness of the data.
  unfoldable pub check_state : RiskInput V → RiskPolicy → Result Exit (Unit {0})
  unfolding kst_time observations
  check_state r p = do
    reject_if (not r.trading_enabled) trading_disabled
    reject_if r.kill_switch_engaged kill_switch_active
    reject_if r.duplicate_state_snapshot duplicate_session
    decision ← kst_time r.decision_at
    cutoff ← kst_time r.available_data_cutoff
    raise_if (ltb longest_duration p.max_source_age_seconds) (raised long_duration)
    let max_age = seconds p.max_source_age_seconds
    reject_if
        (ltb decision.instant cutoff.instant || ltb (cutoff.instant + max_age) decision.instant)
        stale_data
    reject_if
        (is_some (
          pre_model_abstain_reason ops canonical_output_id r.feature_snapshot
            r.available_data_cutoff))
        stale_data
    observed ← observations (rows_of r.feature_snapshot.groups group_order)
    reject_if (is_nil observed) stale_data
    reject_if (any (out_of_window max_age cutoff) observed) stale_data

module _ {V : Type 0} where
  -- The shares that the target exposure pays for.
  unfoldable pub target_shares : RiskInput V → ℕ
  target_shares r = r.nav_krw * r.target_exposure_bps / 10_000 / r.price_krw

  -- The action's target, side and quantity.
  unfoldable pub plan_order : RiskInput V → Result Exit Plan
  unfolding target_shares
  plan_order r =
      let current = r.holdings_quantity in
      let desired = target_shares r in
      elim r.action [
        | enter ↦ do
          reject_if (r.target_exposure_bps == 0) invalid_action
          reject_if (leb desired current) invalid_action
          ok (record {
            desired = desired;
            side = buy;
            quantity = desired - current;
            resized = false;
          })
        | reduce ↦ do
          reject_if (r.target_exposure_bps == 0) invalid_action
          reject_if (current == 0) insufficient_position
          reject_if (leb current desired) invalid_action
          ok (record {
            desired = desired;
            side = sell;
            quantity = current - desired;
            resized = false;
          })
        | exit ↦ do
          reject_if (not (r.target_exposure_bps == 0)) invalid_action
          raise_if (current == 0) nothing
          ok (record { desired = 0; side = sell; quantity = current - 0; resized = false })
        | _ ↦ err nothing
      ]

  unfoldable pub limit_cash : RiskInput V → Plan → Result Exit Plan
  limit_cash r o =
      let current = r.holdings_quantity in
      elim o.side [
        | buy ↦
            (let quantity = r.cash_krw / r.price_krw in
              if ltb r.cash_krw (o.quantity * r.price_krw)
              then (do
                reject_if (ltb quantity 1) insufficient_cash
                ok (record o { quantity = quantity; desired = current + quantity; resized = true }))
              else ok o)
        | sell ↦ do reject_if (ltb current o.quantity) insufficient_position; ok o
      ]

  -- Where the cap lies below the shares that are held, the source's quantity is negative and
  -- fails the test; here it is 0 and fails it too.
  unfoldable pub cap_quantity : RiskInput V → ℕ → RejectReason → Plan → Result Exit Plan
  cap_quantity r cap reason o =
      if ltb cap o.desired
      then (do
        reject_if (ltb (cap - r.holdings_quantity) 1) reason
        ok (record o { desired = cap; quantity = cap - r.holdings_quantity; resized = true }))
      else ok o

  unfoldable pub limit_position : RiskInput V → RiskPolicy → Plan → Result Exit Plan
  unfolding cap_quantity
  limit_position r p o = do
    reject_if
        (ltb (r.nav_krw * p.max_position_bps) (r.holdings_quantity * r.price_krw * 10_000)
          && is_buy o.side)
        position_limit
    cap_quantity r (r.nav_krw * p.max_position_bps / 10_000 / r.price_krw) position_limit o

  -- `other_value`; `RiskInput` has checked that the holding is worth no more than the aggregate.
  -- A room below 0 gives a cap of 0.
  unfoldable pub limit_aggregate : RiskInput V → RiskPolicy → Plan → Result Exit Plan
  unfolding cap_quantity
  limit_aggregate r p o =
      let other = r.aggregate_position_value_krw - r.holdings_quantity * r.price_krw in
      do
        reject_if (ltb (r.nav_krw * p.max_aggregate_bps) (other * 10_000) && is_buy o.side)
            exposure_limit
        cap_quantity r ((r.nav_krw * p.max_aggregate_bps / 10_000 - other) / r.price_krw)
            exposure_limit o

  unfoldable pub check_limits : RiskInput V → RiskPolicy → Plan → Result Exit Plan
  check_limits r p o = do
    reject_if (leb p.daily_order_cap r.daily_order_count || leb p.daily_fill_cap r.daily_fill_count)
        daily_fill_limit
    reject_if (leb (r.nav_krw + p.daily_loss_stop_krw) r.session_start_nav_krw) daily_loss_stop
    reject_if
        (leb (r.high_water_nav_krw * p.drawdown_stop_bps)
          ((r.high_water_nav_krw - r.nav_krw) * 10_000))
        drawdown_stop
    reject_if (ltb o.quantity 1 || ltb (o.quantity * r.price_krw) p.min_notional_krw) min_notional
    ok o

  -- From the action to the quantity.
  unfoldable pub size_order : RiskInput V → RiskPolicy → Result Exit Plan
  unfolding plan_order limit_cash limit_position limit_aggregate check_limits
  size_order r p = plan_order r >>= λ o. limit_cash r o >>= λ o'.
      limit_position r p o' >>= λ o''. limit_aggregate r p o'' >>= check_limits r p

-- `_result(policy, "RESIZE" if resized else "APPROVE", quantity)`
abbrev pub approval : String → Plan → RiskResult
approval sha o = record {
  verdict = if o.resized then resize else approve;
  approved_quantity = some o.quantity;
  reject_reason_code = none;
  policy_sha256 = sha;
  order_required = true;
}

-- `_result(policy, "REJECT", reason=...)`
abbrev pub rejection : String → RejectReason → RiskResult
rejection sha reason = record {
  verdict = reject;
  approved_quantity = none;
  reject_reason_code = some reason;
  policy_sha256 = sha;
  order_required = true;
}

-- `_result(policy, "NO_OP", order=False)`
abbrev pub no_operation : String → RiskResult
no_operation sha = record {
  verdict = no_op;
  approved_quantity = none;
  reject_reason_code = none;
  policy_sha256 = sha;
  order_required = false;
}

-- `_result`, for each way to leave.
unfoldable pub conclude : String → Result Exit Plan → Result RiskError RiskResult
unfolding make_result
conclude sha (ok o) = make_result (approval sha o)
conclude sha (err (rejected reason)) = make_result (rejection sha reason)
conclude sha (err nothing) = make_result (no_operation sha)
conclude sha (err (raised e)) = err e

-- `evaluate_risk`
unfoldable pub evaluate_risk :
    {V : Type 0}
    → NumberOps V
    → (SymbolFeatureOutput V → String)
    → (RiskPolicy → String)
    → RiskInput V
    → RiskPolicy
    → Result RiskError RiskResult
unfolding check_state size_order conclude
evaluate_risk ops canonical_output_id policy_sha256 r p =
    conclude (policy_sha256 p) (check_state ops canonical_output_id r p >>= λ u. size_order r p)
