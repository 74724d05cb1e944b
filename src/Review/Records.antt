-- ===== src/Review/Records.antt =====
-- What `review_and_persist` of strategy/paper_risk.py reads and takes: the texts of verdicts and
-- reasons, what it derives from the ledger, and the functions of other modules that it calls.
use kronos_stock.Common.{
  ℕ, String, Bool, Option, none, some, Result, ok, err, or_raise, true, false, raise_if, ◌>>◌,
}
use kronos_stock.Common.Int.{ℤ, pos, negsuc}
use kronos_stock.Common.Time.{Moment, Timestamp, nine_hours}
use kronos_stock.Symbols.{PerSymbol}
use kronos_stock.Features.Records.{NumberOps, SymbolFeatureOutput}
use kronos_stock.Risk.Records.{
  RiskPolicy, RiskInput, RiskError, RejectReason, trading_disabled, kill_switch_active,
  duplicate_session, stale_data, invalid_action, insufficient_cash, insufficient_position,
  position_limit, exposure_limit, daily_fill_limit, daily_loss_stop, drawdown_stop, min_notional,
  Verdict, approve, resize, reject, no_op, bad_label,
}
use kronos_stock.Ledger.Records.{
  AccountEventType, KillSwitchEventType, ReviewVerdict, approved, rejected_review, resized_review,
  OrderProposal, AgentDecision,
}
use kronos_stock.Ledger.Checks.{LedgerError}
use Prim.Native.String.{◌++◌ as str_append}

-- The exceptions: `ValueError` for an unknown proposal, for one that is not the request's and for a
-- time or a digest; `LedgerConflictError` as `inconsistent`; `TypeError` as `not_a_number`; those of the ledger and of `RiskInput`.
pub data ReviewError : Type 0 where
  unknown_proposal not_the_request untimely bad_digest inconsistent not_a_number : ReviewError
  ledger_error : LedgerError → ReviewError
  risk_error : RiskError → ReviewError

-- `RISK_REJECT_REASON_CODES`, as texts
abbrev pub reject_text : RejectReason → String
reject_text trading_disabled = "TRADING_DISABLED"
reject_text kill_switch_active = "KILL_SWITCH_ACTIVE"
reject_text duplicate_session = "DUPLICATE_SESSION"
reject_text stale_data = "STALE_DATA"
reject_text invalid_action = "INVALID_ACTION"
reject_text insufficient_cash = "INSUFFICIENT_CASH"
reject_text insufficient_position = "INSUFFICIENT_POSITION"
reject_text position_limit = "POSITION_LIMIT"
reject_text exposure_limit = "EXPOSURE_LIMIT"
reject_text daily_fill_limit = "DAILY_FILL_LIMIT"
reject_text daily_loss_stop = "DAILY_LOSS_STOP"
reject_text drawdown_stop = "DRAWDOWN_STOP"
reject_text min_notional = "MIN_NOTIONAL"

-- A verdict as the ledger stores it; `none` is not stored.
abbrev pub stored_verdict : Verdict → Option ReviewVerdict
stored_verdict approve = some approved
stored_verdict resize = some resized_review
stored_verdict reject = some rejected_review
stored_verdict no_op = none

-- `r.verdict IN ('APPROVE','RESIZE')`
abbrev pub accepts : ReviewVerdict → Bool
accepts approved = true
accepts resized_review = true
accepts rejected_review = false

-- The proposal with its decision, and the decision's time.
pub record Binding : Type 0 where
  pub proposal : OrderProposal
  pub decision : AgentDecision
  pub decided : Moment

-- The values that replace those of the request.
pub record Portfolio : Type 0 where
  pub cash_krw : ℤ
  pub holdings : PerSymbol ℤ
  pub price_krw : ℤ
  pub position_value_krw : ℤ
  pub nav_krw : ℤ
  pub high_water_nav_krw : ℤ
  pub session_start_nav_krw : ℤ
  pub daily_order_count : ℕ
  pub daily_fill_count : ℕ
  pub nav_snapshot_id : String
  pub nav_snapshot_at : Timestamp

-- `stage`, `account_event`, `kill_event` and `duplicate`
pub data Gate : Type 0 where
  account_disabled : Option AccountEventType → Gate
  kill_engaged : Option KillSwitchEventType → Gate
  duplicated : Gate
  open_gate : Gate

-- `state`; the portfolio is read behind the open gate only.
pub record Authoritative : Type 0 where
  pub gate : Gate
  pub binding : Binding
  pub portfolio : Option Portfolio

-- What the review takes from elsewhere.
pub record Reviewing (V : Type 0) : Type 0 where
  pub ops : NumberOps V
  pub canonical_output_id : SymbolFeatureOutput V → String
  pub snapshot_digest : SymbolFeatureOutput V → String
  pub policy_sha256 : RiskPolicy → String
  -- a number that is a finite whole one, as an integer
  pub whole : V → Option ℤ
  pub julianday : Timestamp → Option ℕ
  -- SQLite's `nav_snapshot_id LIKE 'paper-cycle-%:nav'`
  pub is_cycle_nav : String → Bool
  -- the SHA-256 of the canonical JSON of a review's payload
  pub payload_digest : String → Timestamp → RiskInput V → RiskPolicy → Authoritative → String

-- `_review_identity`
abbrev pub review_identity :
    {V : Type 0}
    → Reviewing V
    → String
    → Timestamp
    → RiskInput V
    → RiskPolicy
    → Authoritative
    → String
review_identity env proposal_id reviewed_at r policy state =
    str_append "risk-" (env.payload_digest proposal_id reviewed_at r policy state)

-- `_kst_time`
unfoldable pub review_time : Timestamp → Result ReviewError Moment
review_time t = do raise_if (bad_label t.text) untimely; or_raise (nine_hours t.reading) untimely

-- `_kst_time` of a row, where the code turns its error into a conflict
unfoldable pub row_time : Timestamp → Result ReviewError Moment
row_time t = do
  raise_if (bad_label t.text) inconsistent
  or_raise (nine_hours t.reading) inconsistent

-- An error of the ledger or of the input, passed on.
abbrev pub from_ledger : {A : Type 0} → Result LedgerError A → Result ReviewError A
from_ledger (ok a) = ok a
from_ledger (err e) = err (ledger_error e)

abbrev pub from_risk : {A : Type 0} → Result RiskError A → Result ReviewError A
from_risk (ok a) = ok a
from_risk (err e) = err (risk_error e)

-- A call whose error the code turns into a conflict.
abbrev pub or_inconsistent : {A : Type 0} → Result LedgerError A → Result ReviewError A
or_inconsistent (ok a) = ok a
or_inconsistent (err e) = err inconsistent

abbrev pub natural : ℤ → Option ℕ
natural (pos n) = some n
natural (negsuc n) = none
