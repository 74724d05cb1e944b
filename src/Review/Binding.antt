-- ===== src/Review/Binding.antt =====
-- The first part of `review_and_persist` (strategy/paper_risk.py): the proposal with its decision, and
-- that they are the request's. The checks of a column's type are gone.
use kronos_stock.Common.{
  String, Bool, true, false, not, ◌&&◌, ◌||◌, ◌==◌, Option, none, some, Result, ok, raise_if,
  or_raise, ◌>>=◌, ◌>>◌, str_eq, ltb, if◌then◌else◌,
}
use kronos_stock.Common.Time.{Moment}
use kronos_stock.Symbols.{same_symbol, Side, buy, sell, Action, enter, hold, reduce, exit, abstain}
use kronos_stock.Risk.Records.{RiskInput}
use kronos_stock.Ledger.Records.{Ledger, OrderProposal, AgentDecision}
use kronos_stock.Ledger.Same.{same_side, same_action}
use kronos_stock.Ledger.Checks.{fetch_row}
use kronos_stock.Review.Records.{
  ReviewError, unknown_proposal, not_the_request, inconsistent, Binding, review_time,
}

-- `expected_side`
abbrev pub expected_side : Action → Option Side
expected_side enter = some buy
expected_side reduce = some sell
expected_side exit = some sell
expected_side hold = none
expected_side abstain = none

-- `request.action in {"ENTER", "REDUCE"}`
abbrev pub has_target : Action → Bool
has_target enter = true
has_target reduce = true
has_target _ = false

module _ {V : Type 0} where
  -- The columns that must be the request's.
  unfoldable pub is_requested : RiskInput V → OrderProposal → AgentDecision → Bool
  is_requested r p d =
      str_eq p.account_id r.account_id
      && same_symbol p.symbol r.symbol
      && p.target_exposure_bp == r.target_exposure_bps
      && str_eq d.ksf_run_id r.ksf_run_id
      && str_eq d.ksf_decision_id r.ksf_decision_id
      && str_eq d.feature_snapshot_sha256 r.feature_snapshot_sha256
      && str_eq d.available_data_cutoff.text r.available_data_cutoff.text

  -- The proposal, its decision and their times.
  unfoldable pub bind_proposal : Ledger → String → Moment → RiskInput V → Result ReviewError Binding
  unfolding fetch_row is_requested review_time
  bind_proposal l proposal_id reviewed r = do
    p ← or_raise (fetch_row (λ p. p.proposal_id) proposal_id l.proposals) unknown_proposal
    d ← or_raise (fetch_row (λ d. d.decision_id) p.decision_id l.decisions) unknown_proposal
    side ← or_raise (expected_side r.action) inconsistent
    raise_if (ltb 10000 p.target_exposure_bp) inconsistent
    raise_if (not (same_side p.side side) || not (same_action d.action r.action)) inconsistent
    raise_if
        (not
          (if has_target r.action then ltb 0 p.target_exposure_bp else p.target_exposure_bp == 0))
        inconsistent
    raise_if (not (is_requested r p d)) not_the_request
    decided ← review_time d.created_at
    proposed ← review_time p.proposed_at
    raise_if (not (str_eq r.decision_at.text d.created_at.text)) not_the_request
    raise_if (not (str_eq r.session_id decided.date)) not_the_request
    raise_if (ltb reviewed.instant decided.instant || ltb reviewed.instant proposed.instant)
        not_the_request
    ok (record { proposal = p; decision = d; decided = decided })
