-- ===== src/Evaluation/Tests.antt =====
-- Runs of the evaluation at concrete inputs.
use kronos_stock.Common.{
  true, false, map, ℕ, ◌≡◌, refl, String, List, [], ◌∷◌, ok, All, arith, Returns,
}
use kronos_stock.Common.Int.{◌+ℤ◌, floor_div, scale, pos, pos_part, ◌-ℤ◌, ◌≤ℤ◌, int_laws}
use kronos_stock.Common.Time.{Moment, Timestamp, kst, is_sha256, str_lt}
use kronos_stock.Symbols.{s005930, get, enter, hold, exit}
use kronos_stock.Evaluation.Records.{DecisionRecord, MarketOutcome, EvaluationConfig, IsConfig}
use kronos_stock.Evaluation.Run.{Entry, Track, run, trade, buy_fill, desired_quantity}
use kronos_stock.Evaluation.Soundness.{IsPriced, IsSoundResult, run_returns_sound}
use kronos_stock.Evaluation.Reconciliation.{IsSettled, run_settles}
use kronos_stock.Evaluation.Orders.{enter_fills}
use kronos_stock.Evaluation.Adverse.{IsAdverse, run_fills-IsAdverse}
use kronos_stock.Evaluation.Baseline.{IsFlat, hold_run-IsFlat}
use kronos_stock.Evaluation.Validate.{CheckedDecision, CheckedOutcome, validate}
use kronos_stock.Evaluation.Replay.{
  entry_of, deployed_slots, flow_slots, flow_action, evaluate_replay,
}
use kronos_stock.Evaluation.Report.{
  IsCausal, IsSoundReport, schedules-IsCausal, flow_action_no_lookahead, evaluate_replay_returns,
}
use kronos_stock.Evaluation.Shadow.{
  ShadowAuditInput, ShadowAuditResult, audit_shadow, evidence_only_not_activated,
}
use kronos_stock.Evaluation.ShadowAudit.{IsAudited, audit_shadow_sound}

abbrev config : EvaluationConfig
config = record {
  initial_cash_krw = 10_000_000;
  target_exposure_bps = 5_000;
  fee_bps = 15;
  sell_tax_bps = 20;
  slippage_bps = 10;
  random_seed = "seed";
}

config-IsConfig : IsConfig config
config-IsConfig = record {
  cash_positive = omega arith;
  exposure_bound = omega arith;
  fee_bound = omega arith;
  tax_bound = omega arith;
  slippage_bound = omega arith;
}

abbrev digest : String
digest = "0123456789abcdef0123456789abcdef0123456789abcdef0123456789abcdef"

abbrev moment : String → ℕ → Moment
moment date instant = record { instant = instant; date = date }

abbrev at_kst : Moment → Timestamp
at_kst m = record { text = m.date; reading = kst m }

abbrev cutoff : Moment
cutoff = moment "2026-01-05" 100

abbrev persisted : Moment
persisted = moment "2026-01-05" 120

abbrev next_day : Moment
next_day = moment "2026-01-06" 200

abbrev third_day : Moment
third_day = moment "2026-01-07" 300

abbrev decision : DecisionRecord
decision = record {
  session_id = "2026-01-05";
  symbol = s005930;
  action = enter;
  decided_at = at_kst (moment "2026-01-05" 110);
  persisted_at = at_kst persisted;
  available_data_cutoff = at_kst cutoff;
  decision_sha256 = digest;
  source_artifact_sha256 = digest;
}

abbrev outcome_at : Moment → ℕ → MarketOutcome
outcome_at m price = record {
  session_id = m.date;
  symbol = s005930;
  price_krw = price;
  observed_at = at_kst m;
  source_artifact_sha256 = digest;
}

abbrev entering : Entry
entering = record { decision = decision; observation = outcome_at next_day 70_000; action = enter }

abbrev leaving : Entry
leaving = record { decision = decision; observation = outcome_at third_day 80_000; action = exit }

abbrev holding : Entry
holding = record { decision = decision; observation = outcome_at next_day 70_000; action = hold }

abbrev round_trip : List Entry
round_trip = entering ∷ leaving ∷ []

round_trip-IsPriced : All IsPriced round_trip
round_trip-IsPriced = (omega arith, (omega arith, tt))

run_returns_sound_example : Returns (run config round_trip) IsSoundResult
run_returns_sound_example = run_returns_sound config round_trip config-IsConfig round_trip-IsPriced

run_settles_example : Returns (run config round_trip) (IsSettled config round_trip)
run_settles_example = run_settles config round_trip config-IsConfig round_trip-IsPriced

run_fills-IsAdverse_example : Returns (run config round_trip) (λ r. All (IsAdverse config) r.fills)
run_fills-IsAdverse_example =
    run_fills-IsAdverse config round_trip config-IsConfig round_trip-IsPriced

hold_run-IsFlat_example : Returns (run config (holding ∷ [])) (IsFlat config)
hold_run-IsFlat_example =
    hold_run-IsFlat config (holding ∷ []) config-IsConfig (omega arith, tt) (refl, tt)

-- The track that has just seen the price of `entering`.
abbrev seen : Track
seen = record {
  cash = pos 10_000_000;
  positions = record { at_005930 = pos 0; at_000660 = pos 0 };
  last_prices = record { at_005930 = 70_000; at_000660 = 0 };
  fills = [];
  states = [];
  actions = enter ∷ [];
  fees = 0;
  taxes = 0;
  slippage = 0;
  turnover = 0;
  peak = pos 10_000_000;
  max_dd = pos 0;
}

-- Half of ten million buys 71 shares at 70000.
seen_wants : desired_quantity config seen entering ≡ pos 71
unfolding desired_quantity ◌+ℤ◌ floor_div scale
seen_wants = refl

seen_missing : pos 1 ≤ℤ desired_quantity config seen entering -ℤ get seen.positions s005930
seen_missing = rw seen_wants (omega int_laws)

enter_fills_example :
    (trade config entering
      (desired_quantity config seen entering -ℤ get seen.positions s005930)
      seen).fills
    ≡ buy_fill config entering
        (pos_part (desired_quantity config seen entering -ℤ get seen.positions s005930))
      ∷ []
enter_fills_example = enter_fills config entering seen refl (omega arith) seen_missing

abbrev checked : CheckedDecision
checked = record { item = decision; persisted = persisted; cutoff = cutoff }

abbrev outcome_of : Moment → ℕ → CheckedOutcome
outcome_of m price = record { item = outcome_at m price; observed = m }

validated :
    validate (decision ∷ []) (outcome_at next_day 70_000 ∷ [])
    ≡ ok (checked ∷ [], outcome_of next_day 70_000 ∷ [])
unfolding validate is_sha256 str_lt
validated = refl

schedules-IsCausal_example :
    All IsCausal (map entry_of (deployed_slots (checked ∷ []) (outcome_of next_day 70_000 ∷ [])))
    × All IsCausal (map entry_of (flow_slots (checked ∷ []) (outcome_of next_day 70_000 ∷ [])))
schedules-IsCausal_example =
    schedules-IsCausal (decision ∷ []) (outcome_at next_day 70_000 ∷ []) validated

evaluate_replay_returns_example :
    Returns
      (evaluate_replay (λ s. 3) (decision ∷ []) (outcome_at next_day 70_000 ∷ []) config)
      (IsSoundReport config)
evaluate_replay_returns_example =
    evaluate_replay_returns (λ s. 3) (decision ∷ []) (outcome_at next_day 70_000 ∷ []) config
      config-IsConfig validated

abbrev known_day : Moment
known_day = moment "2026-01-02" 50

flow_action_no_lookahead_example :
    flow_action
      (outcome_of known_day 60_000 ∷ outcome_of next_day 70_000 ∷ outcome_of third_day 80_000 ∷ [])
      checked
    ≡ flow_action (outcome_of known_day 60_000 ∷ outcome_of third_day 80_000 ∷ []) checked
flow_action_no_lookahead_example =
    flow_action_no_lookahead checked (outcome_of known_day 60_000 ∷ [])
      (outcome_of third_day 80_000 ∷ []) (outcome_of next_day 70_000) (omega arith)

abbrev evidence : ShadowAuditInput
evidence = record {
  decisions_count = 1;
  proposals_count = 1;
  reviews_count = 1;
  orders_count = 0;
  fills_count = 0;
  cash_mutation_krw = pos 0;
  position_mutation_quantity = pos 0;
  decision_ids = "d1" ∷ [];
  proposal_decision_ids = "d1" ∷ [];
  review_decision_ids = "d1" ∷ [];
  persisted_ats = at_kst cutoff ∷ [];
  proposal_persisted_ats = at_kst cutoff ∷ [];
  review_persisted_ats = at_kst persisted ∷ [];
  outcome_ats = at_kst next_day ∷ [];
  evidence_sha256 = digest;
}

abbrev audited : ShadowAuditResult
audited = record {
  shadow_ready = true;
  evidence_sha256 = digest;
  activation_performed = false;
  status = evidence_only_not_activated;
}

evidence-audited : audit_shadow (λ e. digest) evidence ≡ ok audited
unfolding audit_shadow is_sha256
evidence-audited = refl

audit_shadow_sound_example :
    IsAudited (λ e. digest) evidence × (audited.activation_performed ≡ false)
audit_shadow_sound_example = audit_shadow_sound (λ e. digest) evidence evidence-audited
