-- ===== src/Evaluation/Records.antt =====
-- The records of strategy/paper_evaluation.py, and the checks of their `__post_init__`.
use kronos_stock.Common.{ℕ, ◌≤◌, String, List, Result, ok, raise_if, ltb, str_eq, ◌>>◌}
use kronos_stock.Common.Int.{ℤ}
use kronos_stock.Common.Time.{Timestamp}
use kronos_stock.Symbols.{Symbol, Action, Side}

pub record DecisionRecord : Type 0 where
  pub session_id : String
  pub symbol : Symbol
  pub action : Action
  pub decided_at : Timestamp
  pub persisted_at : Timestamp
  pub available_data_cutoff : Timestamp
  pub decision_sha256 : String
  pub source_artifact_sha256 : String

pub record MarketOutcome : Type 0 where
  pub session_id : String
  pub symbol : Symbol
  pub price_krw : ℕ
  pub observed_at : Timestamp
  pub source_artifact_sha256 : String

pub record EvaluationConfig : Type 0 where
  pub initial_cash_krw : ℕ
  pub target_exposure_bps : ℕ
  pub fee_bps : ℕ
  pub sell_tax_bps : ℕ
  pub slippage_bps : ℕ
  pub random_seed : String

-- What `EvaluationConfig.__post_init__` lets through.
pub record IsConfig (c : EvaluationConfig) : Type 0 where
  pub cash_positive : 1 ≤ c.initial_cash_krw
  pub exposure_bound : c.target_exposure_bps ≤ 10_000
  pub fee_bound : c.fee_bps ≤ 10_000
  pub tax_bound : c.sell_tax_bps ≤ 10_000
  pub slippage_bound : c.slippage_bps ≤ 10_000

pub record Fill : Type 0 where
  pub decision_session_id : String
  pub observation_session_id : String
  pub symbol : Symbol
  pub side : Side
  pub quantity : ℕ
  pub raw_price_krw : ℕ
  pub fill_price_krw : ℕ
  pub fee_krw : ℕ
  pub tax_krw : ℕ
  pub slippage_krw : ℕ

pub record SessionState : Type 0 where
  pub session_id : String
  pub cash_krw : ℤ
  pub position_quantity : ℤ
  pub nav_krw : ℤ

pub record StrategyResult : Type 0 where
  pub ending_cash_krw : ℤ
  pub ending_position_quantity : ℤ
  pub ending_nav_krw : ℤ
  pub return_bps : ℤ
  pub turnover_bps : ℕ
  pub max_drawdown_bps : ℤ
  pub fill_count : ℕ
  pub completed_sessions : ℕ
  pub total_fees_krw : ℕ
  pub total_tax_krw : ℕ
  pub total_slippage_krw : ℕ
  pub action_trace : List Action
  pub fills : List Fill
  pub session_states : List SessionState

pub data EvaluationError : Type 0 where
  malformed_timestamp : EvaluationError
  malformed_sha : EvaluationError
  malformed_int : EvaluationError
  not_chronological : EvaluationError
  persisted_elsewhere : EvaluationError
  duplicate_decision : EvaluationError
  no_decision_lineage : EvaluationError
  duplicate_outcome : EvaluationError
  persisted_too_late : EvaluationError
  outcome_session_mismatch : EvaluationError
  negative_state : EvaluationError
  zero_division : EvaluationError
  bps_above_limit : EvaluationError
  empty_seed : EvaluationError
  economic_mutation : EvaluationError
  inconsistent_lineage : EvaluationError
  missing_chronology : EvaluationError
  persisted_after_outcome : EvaluationError
  wrong_commitment : EvaluationError

-- `_int(value, name) > 10_000`: the values are numbers.
bps_limit : ℕ → Result EvaluationError (Unit {0})
bps_limit n = raise_if (ltb 10_000 n) bps_above_limit

-- `EvaluationConfig(...)`
pub make_config : EvaluationConfig → Result EvaluationError EvaluationConfig
unfolding bps_limit
make_config c = do
  raise_if (ltb c.initial_cash_krw 1) malformed_int
  bps_limit c.target_exposure_bps
  bps_limit c.fee_bps
  bps_limit c.sell_tax_bps
  bps_limit c.slippage_bps
  raise_if (str_eq c.random_seed "") empty_seed
  ok c
