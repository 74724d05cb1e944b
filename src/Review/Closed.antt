-- ===== src/Review/Closed.antt =====
-- What `review_and_persist` (strategy/paper_risk.py) stores behind a closed gate.
use kronos_stock.Common.{String, Option, none, some, Result, ok, ◌>>=◌}
use kronos_stock.Symbols.{PerSymbol}
use kronos_stock.Features.Records.{SymbolFeatureOutput}
use kronos_stock.Risk.Records.{
  RiskInput, RejectReason, trading_disabled, kill_switch_active, duplicate_session,
}
use kronos_stock.Ledger.Records.{Ledger, RiskReview, rejected_review}
use kronos_stock.Ledger.Append.{append_risk_review}
use kronos_stock.Review.Records.{
  ReviewError, Gate, account_disabled, kill_engaged, duplicated, open_gate, Reviewing, from_ledger,
  reject_text,
}
use kronos_stock.Review.Persist.{ReviewCall}

-- The reason of a closed gate.
abbrev pub reason_of : Gate → Option RejectReason
reason_of (account_disabled e) = some trading_disabled
reason_of (kill_engaged e) = some kill_switch_active
reason_of duplicated = some duplicate_session
reason_of open_gate = none

module _ {V : Type 0} (env : Reviewing V) (l : Ledger) (c : ReviewCall) (r : RiskInput V)
    (valuations : PerSymbol (Option (SymbolFeatureOutput V))) where
  -- A rejection for the reason.
  abbrev pub closed_row : String → RejectReason → RiskReview
  closed_row review_id reason = record {
    review_id = review_id;
    proposal_id = c.proposal_id;
    verdict = rejected_review;
    reject_reason_code = some (reject_text reason);
    approved_quantity = none;
    reference_price_krw = none;
    policy_sha256 = env.policy_sha256 c.policy;
    reviewed_at = c.reviewed_at;
  }

  -- The call's result: the ledger with the row, and the identity.
  abbrev pub stores : RiskReview → Result ReviewError (Ledger × Option String)
  stores row = do
    l' ← from_ledger (append_risk_review env.julianday row l)
    ok (l', some row.review_id)
