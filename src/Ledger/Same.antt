-- ===== src/Ledger/Same.antt =====
-- The comparisons of rows that `_is_replay` of paper_trading/ledger.py makes.
use kronos_stock.Common.{ℕ, ◌+◌, String, Bool, true, false, ◌&&◌, ◌==◌, Option, none, some, str_eq}
use kronos_stock.Common.Int.{ℤ, pos_part, neg_part}
use kronos_stock.Common.Time.{Timestamp}
use kronos_stock.Symbols.{same_symbol, Action, enter, hold, reduce, exit, abstain, Side, buy, sell}
use kronos_stock.Ledger.Records.{
  Account, AccountEventType, AccountEvent, AgentDecision, OrderProposal, ReviewVerdict, RiskReview,
  PaperOrder, OrderEventType, OrderEvent, PaperFill, Mark, NavSnapshot, KillSwitchEventType,
  KillSwitchEvent, approved, rejected_review, resized_review, account_created, account_enabled,
  account_disabled, accepted, filled, cancelled, expired, engaged, released,
}

abbrev pub same_side : Side → Side → Bool
same_side buy buy = true
same_side sell sell = true
same_side _ _ = false

abbrev pub same_action : Action → Action → Bool
same_action enter enter = true
same_action hold hold = true
same_action reduce reduce = true
same_action exit exit = true
same_action abstain abstain = true
same_action _ _ = false

unfoldable pub same_text_or_null : Option String → Option String → Bool
same_text_or_null none none = true
same_text_or_null (some s) (some t) = str_eq s t
same_text_or_null _ _ = false

unfoldable pub same_number_or_null : Option ℕ → Option ℕ → Bool
same_number_or_null none none = true
same_number_or_null (some m) (some n) = m == n
same_number_or_null _ _ = false

same_account_event_type : AccountEventType → AccountEventType → Bool
same_account_event_type account_created account_created = true
same_account_event_type account_enabled account_enabled = true
same_account_event_type account_disabled account_disabled = true
same_account_event_type _ _ = false

same_order_event_type : OrderEventType → OrderEventType → Bool
same_order_event_type accepted accepted = true
same_order_event_type filled filled = true
same_order_event_type cancelled cancelled = true
same_order_event_type expired expired = true
same_order_event_type _ _ = false

unfoldable pub same_verdict : ReviewVerdict → ReviewVerdict → Bool
same_verdict approved approved = true
same_verdict rejected_review rejected_review = true
same_verdict resized_review resized_review = true
same_verdict _ _ = false

same_kill_switch_event_type : KillSwitchEventType → KillSwitchEventType → Bool
same_kill_switch_event_type engaged engaged = true
same_kill_switch_event_type released released = true
same_kill_switch_event_type _ _ = false

unfoldable pub same_time : Timestamp → Timestamp → Bool
same_time a b = str_eq a.text b.text

unfoldable pub same_account : Account → Account → Bool
unfolding same_time
same_account a b =
    str_eq a.account_id b.account_id
    && a.initial_cash_krw == b.initial_cash_krw
    && str_eq a.policy_version b.policy_version
    && same_time a.created_at b.created_at

-- All columns but `seq`.
unfoldable pub same_account_event : AccountEvent → AccountEvent → Bool
unfolding same_time same_account_event_type same_text_or_null
same_account_event a b =
    str_eq a.account_event_id b.account_event_id
    && str_eq a.account_id b.account_id
    && same_account_event_type a.event_type b.event_type
    && same_text_or_null a.reason_code b.reason_code
    && same_time a.event_at b.event_at

unfoldable pub same_decision : AgentDecision → AgentDecision → Bool
unfolding same_time
same_decision a b =
    str_eq a.decision_id b.decision_id
    && str_eq a.account_id b.account_id
    && same_symbol a.symbol b.symbol
    && str_eq a.ksf_run_id b.ksf_run_id
    && str_eq a.ksf_decision_id b.ksf_decision_id
    && str_eq a.feature_snapshot_sha256 b.feature_snapshot_sha256
    && same_time a.available_data_cutoff b.available_data_cutoff
    && same_action a.action b.action
    && str_eq a.reason_code b.reason_code
    && str_eq a.rationale_sha256 b.rationale_sha256
    && same_time a.created_at b.created_at

unfoldable pub same_proposal : OrderProposal → OrderProposal → Bool
unfolding same_time
same_proposal a b =
    str_eq a.proposal_id b.proposal_id
    && str_eq a.decision_id b.decision_id
    && str_eq a.account_id b.account_id
    && same_symbol a.symbol b.symbol
    && same_side a.side b.side
    && a.target_exposure_bp == b.target_exposure_bp
    && str_eq a.idempotency_key b.idempotency_key
    && str_eq a.model_name b.model_name
    && str_eq a.model_version b.model_version
    && same_time a.proposed_at b.proposed_at

unfoldable pub same_review : RiskReview → RiskReview → Bool
unfolding same_time same_verdict same_text_or_null same_number_or_null
same_review a b =
    str_eq a.review_id b.review_id
    && str_eq a.proposal_id b.proposal_id
    && same_verdict a.verdict b.verdict
    && same_text_or_null a.reject_reason_code b.reject_reason_code
    && same_number_or_null a.approved_quantity b.approved_quantity
    && same_number_or_null a.reference_price_krw b.reference_price_krw
    && str_eq a.policy_sha256 b.policy_sha256
    && same_time a.reviewed_at b.reviewed_at

unfoldable pub same_order : PaperOrder → PaperOrder → Bool
unfolding same_time
same_order a b =
    str_eq a.order_id b.order_id
    && str_eq a.review_id b.review_id
    && str_eq a.proposal_id b.proposal_id
    && str_eq a.account_id b.account_id
    && same_symbol a.symbol b.symbol
    && same_side a.side b.side
    && a.quantity == b.quantity
    && str_eq a.idempotency_key b.idempotency_key
    && same_time a.created_at b.created_at

-- All columns but `seq`.
unfoldable pub same_order_event : OrderEvent → OrderEvent → Bool
unfolding same_time same_order_event_type
same_order_event a b =
    str_eq a.order_event_id b.order_event_id
    && str_eq a.order_id b.order_id
    && same_order_event_type a.event_type b.event_type
    && same_time a.event_at b.event_at

unfoldable pub same_fill : PaperFill → PaperFill → Bool
unfolding same_time
same_fill a b =
    str_eq a.fill_id b.fill_id
    && str_eq a.order_id b.order_id
    && str_eq a.account_id b.account_id
    && same_symbol a.symbol b.symbol
    && same_side a.side b.side
    && a.raw_reference_price_krw == b.raw_reference_price_krw
    && a.fill_price_krw == b.fill_price_krw
    && a.quantity == b.quantity
    && a.fee_krw == b.fee_krw
    && a.tax_krw == b.tax_krw
    && a.slippage_krw == b.slippage_krw
    && a.fee_bps == b.fee_bps
    && a.tax_bps == b.tax_bps
    && a.slippage_bps == b.slippage_bps
    && str_eq a.execution_policy_sha256 b.execution_policy_sha256
    && same_time a.observed_at b.observed_at
    && str_eq a.observation_sha256 b.observation_sha256
    && same_time a.filled_at b.filled_at

-- All columns but `seq`.
unfoldable pub same_kill_switch_event : KillSwitchEvent → KillSwitchEvent → Bool
unfolding same_time same_kill_switch_event_type
same_kill_switch_event a b =
    str_eq a.kill_switch_event_id b.kill_switch_event_id
    && str_eq a.account_id b.account_id
    && same_kill_switch_event_type a.event_type b.event_type
    && str_eq a.reason_code b.reason_code
    && same_time a.event_at b.event_at

abbrev pub same_int : ℤ → ℤ → Bool
same_int a b = pos_part a + neg_part b == pos_part b + neg_part a

same_mark : Option Mark → Option Mark → Bool
unfolding same_time
same_mark none none = true
same_mark (some a) (some b) =
    same_int a.quantity b.quantity
    && a.price_krw == b.price_krw
    && str_eq a.feature_snapshot_sha256 b.feature_snapshot_sha256
    && same_time a.observed_at b.observed_at
same_mark _ _ = false

unfoldable pub same_nav_snapshot : NavSnapshot → NavSnapshot → Bool
unfolding same_time same_mark
same_nav_snapshot a b =
    str_eq a.nav_snapshot_id b.nav_snapshot_id
    && str_eq a.account_id b.account_id
    && str_eq a.session_date b.session_date
    && same_int a.cash_krw b.cash_krw
    && same_int a.position_value_krw b.position_value_krw
    && same_mark a.position_marks.at_005930 b.position_marks.at_005930
    && same_mark a.position_marks.at_000660 b.position_marks.at_000660
    && same_int a.nav_krw b.nav_krw
    && same_time a.snapshot_at b.snapshot_at
