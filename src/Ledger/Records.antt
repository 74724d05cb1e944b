-- ===== src/Ledger/Records.antt =====
-- The rows of the tables that paper_trading/ledger.py writes, its allowlists, and the ledger as the
-- lists of its rows, the oldest first.
use kronos_stock.Common.{ℕ, String, List, [], ◌∷◌, Option}
use kronos_stock.Common.Int.{ℤ}
use kronos_stock.Common.Time.{Timestamp}
use kronos_stock.Symbols.{PerSymbol, Symbol, Action, Side}

-- `DECISION_REASON_CODES`
abbrev pub decision_reason_codes : List String
decision_reason_codes =
    "FLOW_SIGNAL_POSITIVE" ∷ "FLOW_SIGNAL_NEGATIVE" ∷ "NO_EDGE" ∷ "DATA_STALE" ∷ "DATA_MISSING"
    ∷ "DATA_RESTRICTED" ∷ "MODEL_UNAVAILABLE" ∷ "MODEL_OUTPUT_INVALID" ∷ "KILL_SWITCH_ACTIVE"
    ∷ "RISK_LIMIT_REACHED" ∷ "MARKET_CLOSED" ∷ []

-- `RISK_REJECT_REASON_CODES`
abbrev pub risk_reject_reason_codes : List String
risk_reject_reason_codes =
    "TRADING_DISABLED" ∷ "KILL_SWITCH_ACTIVE" ∷ "DUPLICATE_SESSION" ∷ "STALE_DATA"
    ∷ "INVALID_ACTION" ∷ "INSUFFICIENT_CASH" ∷ "INSUFFICIENT_POSITION" ∷ "POSITION_LIMIT"
    ∷ "EXPOSURE_LIMIT" ∷ "DAILY_FILL_LIMIT" ∷ "DAILY_LOSS_STOP" ∷ "DRAWDOWN_STOP" ∷ "MIN_NOTIONAL"
    ∷ []

-- `KILL_SWITCH_REASON_CODES`
abbrev pub kill_switch_reason_codes : List String
kill_switch_reason_codes =
    "MANUAL" ∷ "STARTUP_DEFAULT" ∷ "DAILY_LOSS_STOP" ∷ "DRAWDOWN_STOP" ∷ "DATA_INTEGRITY"
    ∷ "OPERATOR_STOP" ∷ []

-- `ACCOUNT_EVENT_REASON_CODES`
abbrev pub account_event_reason_codes : List String
account_event_reason_codes = "INITIAL" ∷ "MANUAL" ∷ "KILL_SWITCH" ∷ "POLICY" ∷ []

pub record Account : Type 0 where
  pub account_id : String
  pub initial_cash_krw : ℕ
  pub policy_version : String
  pub created_at : Timestamp

pub data AccountEventType : Type 0 where
  account_created account_enabled account_disabled : AccountEventType

pub record AccountEvent : Type 0 where
  pub account_event_id : String
  pub account_id : String
  pub seq : ℕ
  pub event_type : AccountEventType
  pub reason_code : Option String
  pub event_at : Timestamp

pub record AgentDecision : Type 0 where
  pub decision_id : String
  pub account_id : String
  pub symbol : Symbol
  pub ksf_run_id : String
  pub ksf_decision_id : String
  pub feature_snapshot_sha256 : String
  pub available_data_cutoff : Timestamp
  pub action : Action
  pub reason_code : String
  pub rationale_sha256 : String
  pub created_at : Timestamp

pub record OrderProposal : Type 0 where
  pub proposal_id : String
  pub decision_id : String
  pub account_id : String
  pub symbol : Symbol
  pub side : Side
  pub target_exposure_bp : ℕ
  pub idempotency_key : String
  pub model_name : String
  pub model_version : String
  pub proposed_at : Timestamp

-- `RISK_VERDICTS`
pub data ReviewVerdict : Type 0 where
  approved rejected_review resized_review : ReviewVerdict

pub record RiskReview : Type 0 where
  pub review_id : String
  pub proposal_id : String
  pub verdict : ReviewVerdict
  pub reject_reason_code : Option String
  pub approved_quantity : Option ℕ
  pub reference_price_krw : Option ℕ
  pub policy_sha256 : String
  pub reviewed_at : Timestamp

pub record PaperOrder : Type 0 where
  pub order_id : String
  pub review_id : String
  pub proposal_id : String
  pub account_id : String
  pub symbol : Symbol
  pub side : Side
  pub quantity : ℕ
  pub idempotency_key : String
  pub created_at : Timestamp

pub data OrderEventType : Type 0 where
  accepted filled cancelled expired : OrderEventType

pub record OrderEvent : Type 0 where
  pub order_event_id : String
  pub order_id : String
  pub seq : ℕ
  pub event_type : OrderEventType
  pub event_at : Timestamp

pub record PaperFill : Type 0 where
  pub fill_id : String
  pub order_id : String
  pub account_id : String
  pub symbol : Symbol
  pub side : Side
  pub raw_reference_price_krw : ℕ
  pub fill_price_krw : ℕ
  pub quantity : ℕ
  pub fee_krw : ℕ
  pub tax_krw : ℕ
  pub slippage_krw : ℕ
  pub fee_bps : ℕ
  pub tax_bps : ℕ
  pub slippage_bps : ℕ
  pub execution_policy_sha256 : String
  pub observed_at : Timestamp
  pub observation_sha256 : String
  pub filled_at : Timestamp

pub data CashEventType : Type 0 where
  initial_deposit fill_debit fill_credit fee tax : CashEventType

pub record CashEvent : Type 0 where
  pub cash_event_id : String
  pub account_id : String
  pub fill_id : Option String
  pub event_type : CashEventType
  pub amount_krw : ℤ
  pub event_at : Timestamp

pub record PositionEvent : Type 0 where
  pub position_event_id : String
  pub account_id : String
  pub symbol : Symbol
  pub fill_id : String
  pub quantity_delta : ℤ
  pub event_at : Timestamp

-- A mark of `position_marks_json`.
pub record Mark : Type 0 where
  pub quantity : ℤ
  pub price_krw : ℕ
  pub feature_snapshot_sha256 : String
  pub observed_at : Timestamp

-- The marks are a dictionary that is keyed by the symbols.
pub record NavSnapshot : Type 0 where
  pub nav_snapshot_id : String
  pub account_id : String
  pub session_date : String
  pub cash_krw : ℤ
  pub position_value_krw : ℤ
  pub position_marks : PerSymbol (Option Mark)
  pub nav_krw : ℤ
  pub snapshot_at : Timestamp

pub data KillSwitchEventType : Type 0 where
  engaged released : KillSwitchEventType

pub record KillSwitchEvent : Type 0 where
  pub kill_switch_event_id : String
  pub account_id : String
  pub seq : ℕ
  pub event_type : KillSwitchEventType
  pub reason_code : String
  pub event_at : Timestamp

pub record Ledger : Type 0 where
  pub accounts : List Account
  pub account_events : List AccountEvent
  pub decisions : List AgentDecision
  pub proposals : List OrderProposal
  pub reviews : List RiskReview
  pub orders : List PaperOrder
  pub order_events : List OrderEvent
  pub fills : List PaperFill
  pub cash_events : List CashEvent
  pub position_events : List PositionEvent
  pub nav_snapshots : List NavSnapshot
  pub kill_switch_events : List KillSwitchEvent

abbrev pub empty_ledger : Ledger
empty_ledger = record {
  accounts = [];
  account_events = [];
  decisions = [];
  proposals = [];
  reviews = [];
  orders = [];
  order_events = [];
  fills = [];
  cash_events = [];
  position_events = [];
  nav_snapshots = [];
  kill_switch_events = [];
}
