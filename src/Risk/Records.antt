-- ===== src/Risk/Records.antt =====
-- The records of strategy/paper_risk.py and the checks of their `__post_init__`. A value that the
-- code checks to be an integer of at least 0 is a number. The digests are parameters.
use kronos_stock.Common.{
  ℕ, ◌+◌, ◌*◌, String, Bool, true, false, not, ◌||◌, ◌==◌, Option, none, some, Result, ok, raise_if,
  ◌>>◌, ltb, str_eq, length, any,
}
use kronos_stock.Common.Time.{Timestamp, nine_hours, codes, is_sha256}
use kronos_stock.Symbols.{Symbol, Action, same_symbol}
use kronos_stock.Features.Records.{SymbolFeatureOutput, EngineFeature, NumberOps, group_order}
use kronos_stock.Features.Eligibility.{rows_of}

pub record RiskPolicy : Type 0 where
  pub max_position_bps : ℕ
  pub max_aggregate_bps : ℕ
  pub daily_order_cap : ℕ
  pub daily_fill_cap : ℕ
  pub daily_loss_stop_krw : ℕ
  pub drawdown_stop_bps : ℕ
  pub min_notional_krw : ℕ
  pub max_source_age_seconds : ℕ

pub record RiskInput (V : Type 0) : Type 0 where
  pub account_id : String
  pub ksf_run_id : String
  pub ksf_decision_id : String
  pub feature_snapshot_sha256 : String
  pub session_id : String
  pub symbol : Symbol
  pub action : Action
  pub target_exposure_bps : ℕ
  pub price_krw : ℕ
  pub cash_krw : ℕ
  pub holdings_quantity : ℕ
  pub aggregate_position_value_krw : ℕ
  pub nav_krw : ℕ
  pub high_water_nav_krw : ℕ
  pub session_start_nav_krw : ℕ
  pub daily_order_count : ℕ
  pub daily_fill_count : ℕ
  pub trading_enabled : Bool
  pub kill_switch_engaged : Bool
  pub duplicate_state_snapshot : Bool
  pub decision_at : Timestamp
  pub available_data_cutoff : Timestamp
  pub feature_snapshot : SymbolFeatureOutput V

-- `RISK_REJECT_REASON_CODES`
pub data RejectReason : Type 0 where
  trading_disabled kill_switch_active duplicate_session stale_data invalid_action : RejectReason
  insufficient_cash insufficient_position position_limit exposure_limit : RejectReason
  daily_fill_limit daily_loss_stop drawdown_stop min_notional : RejectReason

pub data Verdict : Type 0 where
  approve resize reject no_op : Verdict

pub record RiskResult : Type 0 where
  pub verdict : Verdict
  pub approved_quantity : Option ℕ
  pub reject_reason_code : Option RejectReason
  pub policy_sha256 : String
  pub order_required : Bool

pub data RiskError : Type 0 where
  bad_text bad_time bad_sha bad_bps bad_cap not_positive symbol_mismatch cutoff_mismatch : RiskError
  snapshot_mismatch nav_mismatch position_above_aggregate high_water_below_nav bad_shape : RiskError
  not_canonical : RiskError
  -- `OverflowError`
  long_duration : RiskError

out_of_bps : ℕ → Bool
out_of_bps n = ltb n 1 || ltb 10_000 n

-- `RiskPolicy.__post_init__`
unfoldable pub make_policy : RiskPolicy → Result RiskError RiskPolicy
unfolding out_of_bps
make_policy p = do
  raise_if (out_of_bps p.max_position_bps) bad_bps
  raise_if (out_of_bps p.max_aggregate_bps) bad_bps
  raise_if (ltb p.max_aggregate_bps p.max_position_bps) bad_cap
  raise_if (ltb p.daily_order_cap 1 || ltb p.daily_fill_cap 1 || ltb p.daily_loss_stop_krw 1)
      bad_cap
  raise_if (out_of_bps p.drawdown_stop_bps) bad_bps
  raise_if (ltb p.min_notional_krw 1) not_positive
  ok p

-- `_text`
unfoldable pub bad_label : String → Bool
bad_label s = str_eq s "" || ltb 256 (length (codes s))

-- `_kst_time` raises
unfoldable pub untimely : Timestamp → Bool
untimely t = bad_label t.text || elim (nine_hours t.reading) [ none ↦ true | some m ↦ false ]

-- A value of the snapshot is not finite: `_normalize_feature_output` gives `None`.
unfoldable pub not_finite : {V : Type 0} → NumberOps V → EngineFeature V → Bool
not_finite ops f = elim f.value [ none ↦ false | some v ↦ not (ops.is_finite v) ]

-- `RiskInput.__post_init__`; `snapshot_digest` is the digest of the snapshot's JSON.
unfoldable pub make_input :
    {V : Type 0}
    → NumberOps V
    → (SymbolFeatureOutput V → String)
    → RiskInput V
    → Result RiskError (RiskInput V)
unfolding bad_label untimely not_finite rows_of
make_input ops snapshot_digest r = do
  raise_if (bad_label r.account_id || bad_label r.ksf_run_id) bad_text
  raise_if (bad_label r.ksf_decision_id || bad_label r.session_id) bad_text
  raise_if (not (is_sha256 r.feature_snapshot_sha256)) bad_sha
  raise_if
      (ltb r.price_krw 1
        || ltb r.nav_krw 1
        || ltb r.high_water_nav_krw 1
        || ltb r.session_start_nav_krw 1)
      not_positive
  raise_if (ltb 10_000 r.target_exposure_bps) bad_bps
  raise_if (untimely r.decision_at) bad_time
  raise_if (untimely r.available_data_cutoff) bad_time
  raise_if (any (not_finite ops) (rows_of r.feature_snapshot.groups group_order)) not_canonical
  raise_if (not (same_symbol r.feature_snapshot.symbol r.symbol)) symbol_mismatch
  raise_if (not (str_eq r.feature_snapshot.available_data_cutoff.text r.available_data_cutoff.text))
      cutoff_mismatch
  raise_if (not (str_eq (snapshot_digest r.feature_snapshot) r.feature_snapshot_sha256))
      snapshot_mismatch
  raise_if (not (r.nav_krw == r.cash_krw + r.aggregate_position_value_krw)) nav_mismatch
  raise_if (ltb r.aggregate_position_value_krw (r.holdings_quantity * r.price_krw))
      position_above_aggregate
  raise_if (ltb r.high_water_nav_krw r.nav_krw) high_water_below_nav
  ok r

abbrev is_none : {A : Type 0} → Option A → Bool
is_none none = true
is_none (some a) = false

-- `RiskResult.__post_init__`
unfoldable pub bad_result : RiskResult → Bool
bad_result r = not (is_sha256 r.policy_sha256) || elim r.verdict [
  | approve ↦
      elim r.approved_quantity [ none ↦ true | some q ↦ ltb q 1 ]
      || not (is_none r.reject_reason_code)
      || not r.order_required
  | resize ↦
      elim r.approved_quantity [ none ↦ true | some q ↦ ltb q 1 ]
      || not (is_none r.reject_reason_code)
      || not r.order_required
  | reject ↦
      not (is_none r.approved_quantity) || is_none r.reject_reason_code || not r.order_required
  | no_op ↦
      not (is_none r.approved_quantity) || not (is_none r.reject_reason_code) || r.order_required
]

unfoldable pub make_result : RiskResult → Result RiskError RiskResult
unfolding bad_result
make_result r = do raise_if (bad_result r) bad_shape; ok r
