-- ===== src/Risk/Tests.antt =====
-- Risk reviews of concrete inputs.
use kronos_stock.Common.{ℕ, ◌+◌, ◌*◌, ◌≡◌, refl, String, true, false, ok, err}
use kronos_stock.Common.Time.{is_sha256, nine_hours}
use kronos_stock.Symbols.{Action, s005930, enter}
use kronos_stock.Features.Records.{SymbolFeatureOutput}
use kronos_stock.Features.Tests.{whole_numbers, taken_at, snapshot, snapshot_id}
use kronos_stock.Risk.Records.{RiskPolicy, RiskInput, make_input, bad_label, long_duration}
use kronos_stock.Risk.Evaluate.{evaluate_risk, check_state, raised}
use kronos_stock.Risk.Verdict.{evaluate_risk-IsJustified, Concludes}

abbrev pub policy : RiskPolicy
policy = record {
  max_position_bps = 2_000;
  max_aggregate_bps = 5_000;
  daily_order_cap = 5;
  daily_fill_cap = 5;
  daily_loss_stop_krw = 300_000;
  drawdown_stop_bps = 1_000;
  min_notional_krw = 10_000;
  max_source_age_seconds = 86_400;
}

abbrev pub digest : String
digest = "0123456789abcdef0123456789abcdef0123456789abcdef0123456789abcdef"

abbrev pub snapshot_digest : SymbolFeatureOutput ℕ → String
snapshot_digest o = digest

-- An account of ten million that holds shares at 70000.
abbrev pub request : Action → ℕ → ℕ → ℕ → RiskInput ℕ
request action target cash held = record {
  account_id = "account";
  ksf_run_id = "run";
  ksf_decision_id = "decision";
  feature_snapshot_sha256 = digest;
  session_id = "2026-01-05";
  symbol = s005930;
  action = action;
  target_exposure_bps = target;
  price_krw = 70_000;
  cash_krw = cash;
  holdings_quantity = held;
  aggregate_position_value_krw = held * 70_000;
  nav_krw = cash + held * 70_000;
  high_water_nav_krw = cash + held * 70_000;
  session_start_nav_krw = cash + held * 70_000;
  daily_order_count = 0;
  daily_fill_count = 0;
  trading_enabled = true;
  kill_switch_engaged = false;
  duplicate_state_snapshot = false;
  decision_at = taken_at 160;
  available_data_cutoff = taken_at 150;
  feature_snapshot = snapshot;
}

request_accepted :
    make_input whole_numbers snapshot_digest (request enter 1_000 10_000_000 0)
    ≡ ok (request enter 1_000 10_000_000 0)
unfolding make_input is_sha256 nine_hours
request_accepted = refl

pub digest_formed : is_sha256 digest ≡ true
unfolding is_sha256
digest_formed = refl

evaluate_risk-IsJustified_example :
    Concludes whole_numbers snapshot_id (request enter 1_000 10_000_000 0) policy (
      evaluate_risk whole_numbers snapshot_id
        (λ p. digest)
        (request enter 1_000 10_000_000 0)
        policy)
evaluate_risk-IsJustified_example =
    evaluate_risk-IsJustified whole_numbers snapshot_id snapshot_digest (λ p. digest)
      (request enter 1_000 10_000_000 0) policy request_accepted digest_formed

-- A window of ten to the fourteenth seconds is no `timedelta`.
long_window :
    check_state whole_numbers snapshot_id
      (request enter 1_000 10_000_000 0)
      (record policy { max_source_age_seconds = 100_000_000_000_000 })
    ≡ err (raised long_duration)
unfolding check_state bad_label nine_hours
long_window = refl
