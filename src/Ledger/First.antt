-- ===== src/Ledger/First.antt =====
-- The first review of a proposal is appended: `append_risk_review` of paper_trading/ledger.py.
use kronos_stock.Common.{
  ℕ, String, List, [], ◌∷◌, ◌++◌, ◌≡◌, inl, inr, refl, true, false, Option, none, some, ok, arith,
  str_eq, Bool-cases,
}
use kronos_stock.Common.Time.{Moment, Timestamp, aware, is_sha256}
use kronos_stock.Ledger.Records.{Ledger, RiskReview, OrderProposal}
use kronos_stock.Ledger.Checks.{fetch_row, is_replay, has_value, require_sha256, require_tz_iso}
use kronos_stock.Ledger.Append.{append_risk_review, check_verdict, unread, precedes_row, precedes}

module _ {A : Type 0} (column : A → String) (key : String) where
  none-has_value :
      (rows : List A) → fetch_row column key rows ≡ none → has_value column key rows ≡ false
  unfolding fetch_row
  none-has_value [] h = refl
  none-has_value (x ∷ xs) h = elim (Bool-cases (str_eq (column x) key)) [
    | inl found ↦ ground (arith, found, h)
    | inr other ↦ rw other (none-has_value xs (ground (arith, other, h)))
  ]

  some-has_value :
      (rows : List A) (x : A)
      → fetch_row column key rows ≡ some x
      → has_value column key rows ≡ true
  unfolding fetch_row
  some-has_value [] y h = ground arith
  some-has_value (x ∷ xs) y h = elim (Bool-cases (str_eq (column x) key)) [
    | inl found ↦ rw found refl
    | inr other ↦ rw other (some-has_value xs y (ground (arith, other, h)))
  ]

-- A row of an accepted form, whose proposal is there, and is not later for SQLite, and without a review
-- of the proposal or of the identity, is appended.
pub append_risk_review-first :
    (julianday : Timestamp → Option ℕ) (row : RiskReview) (l : Ledger) (m : Moment)
    (p : OrderProposal)
    → check_verdict row ≡ ok tt
    → is_sha256 row.policy_sha256 ≡ true
    → aware row.reviewed_at.reading ≡ some m
    → fetch_row (λ r. r.review_id) row.review_id l.reviews ≡ none
    → fetch_row (λ r. r.proposal_id) row.proposal_id l.reviews ≡ none
    → fetch_row (λ q. q.proposal_id) row.proposal_id l.proposals ≡ some p
    → unread julianday row.reviewed_at ≡ false
    → precedes julianday row.reviewed_at p.proposed_at ≡ false
    → append_risk_review julianday row l ≡ ok (record l { reviews = l.reviews ++ (row ∷ []) })
unfolding append_risk_review require_sha256 require_tz_iso is_replay precedes_row
append_risk_review-first julianday row l m p v s t i first bound readable later = rw v (
    rw s (
      rw t (
        rw (i, is_replay)
          (rw (some-has_value (λ q. q.proposal_id) row.proposal_id l.proposals p bound) (
            rw (none-has_value (λ r. r.proposal_id) row.proposal_id l.reviews first)
              (rw readable (rw bound (rw later refl))))))))
