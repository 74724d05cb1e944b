-- ===== src/Ledger/Replay.antt =====
-- An identical call of an operation of paper_trading/ledger.py, repeated.
use kronos_stock.Common.{
  ℕ, String, List, [], ◌∷◌, ◌++◌, ◌≡◌, ◌⊎◌, inl, inr, refl, ap, ◌∙◌, Bool, true, false, not, ◌||◌,
  Option, none, some, Result, ok, ◌>>◌, raise_if, arith, str_eq, eq_iff, IfOk, >>=-IfOk, IfOk_self,
  raise_if-IfOk_passed, Bool-cases,
}
use kronos_stock.Common.Time.{Moment, Timestamp}
use kronos_stock.Ledger.Records.{Ledger, RiskReview, ReviewVerdict}
use kronos_stock.Ledger.Same.{
  same_review, same_text_or_null, same_number_or_null, same_verdict, same_time,
}
use kronos_stock.Ledger.Checks.{
  conflict, aborted, fetch_row, is_replay, has_value, require_sha256, require_tz_iso,
}
use kronos_stock.Ledger.Append.{append_risk_review, check_verdict, unread, precedes_row}

str_eq_refl : (s : String) → str_eq s s ≡ true
str_eq_refl s = ground (arith, eq_iff s s)

module _ {A : Type 0} (column : A → String) where
  -- A row that is appended is found, if no row before it has its key.
  pub fetch_row_appended :
      (x : A) (xs : List A)
      → fetch_row column (column x) xs ≡ none
      → fetch_row column (column x) (xs ++ (x ∷ [])) ≡ some x
  unfolding fetch_row
  fetch_row_appended x [] h = rw (str_eq_refl (column x)) refl
  fetch_row_appended x (y ∷ ys) h = elim (Bool-cases (str_eq (column y) (column x))) [
    | inl found ↦ ground (arith, found, h)
    | inr other ↦ rw other (fetch_row_appended x ys (ground (arith, other, h)))
  ]

same_text_refl : (s : Option String) → same_text_or_null s s ≡ true
unfolding same_text_or_null
same_text_refl none = refl
same_text_refl (some s) = str_eq_refl s

same_number_refl : (n : Option ℕ) → same_number_or_null n n ≡ true
unfolding same_number_or_null
same_number_refl none = refl
same_number_refl (some n) = ground arith

same_verdict_refl : (v : ReviewVerdict) → same_verdict v v ≡ true
unfolding same_verdict
same_verdict_refl v = ground arith

same_review_refl : (row : RiskReview) → same_review row row ≡ true
unfolding same_review same_time
same_review_refl row = rw (str_eq_refl row.review_id) (
    rw (str_eq_refl row.proposal_id) (
      rw (same_verdict_refl row.verdict) (
        rw (same_text_refl row.reject_reason_code) (
          rw (same_number_refl row.approved_quantity) (
            rw (same_number_refl row.reference_price_krw)
              (rw (str_eq_refl row.policy_sha256) (rw (str_eq_refl row.reviewed_at.text) refl)))))))

has_value-none :
    {A : Type 0} (column : A → String) (key : String) (rows : List A)
    → has_value column key rows ≡ false
    → fetch_row column key rows ≡ none
unfolding fetch_row
has_value-none column key [] h = refl
has_value-none column key (x ∷ xs) h = elim (Bool-cases (str_eq (column x) key)) [
  | inl found ↦ ground (arith, found, h)
  | inr other ↦ rw other (has_value-none column key xs (ground (arith, other, h)))
]

undecided :
    {E A : Type 0} (same : A → Bool) (e : E) (o : Option A)
    → (elim o as (λ o'. Result E Bool) [
      | none ↦ ok false
      | some existing ↦ do raise_if (not (same existing)) e; ok true
    ])
      ≡ ok false
    → o ≡ none
undecided same e none h = refl
undecided same e (some x) h = ground arith

is_replay-none :
    (row : RiskReview) (rows : List RiskReview)
    → is_replay (λ r. r.review_id) same_review row rows ≡ ok false
    → fetch_row (λ r. r.review_id) row.review_id rows ≡ none
unfolding is_replay
is_replay-none row rows h =
    undecided (λ x. same_review x row) conflict (fetch_row (λ r. r.review_id) row.review_id rows) h

module _ (julianday : Timestamp → Option ℕ) (row : RiskReview) (l : Ledger) where
  -- The ledger with the review appended, where a repeated call changes nothing.
  pub record IsReplayed (l' : Ledger) : Type 0 where
    pub appended : l' ≡ record l { reviews = l.reviews ++ (row ∷ []) }
    pub again : append_risk_review julianday row l' ≡ ok l'
    pub found : fetch_row (λ r. r.proposal_id) row.proposal_id l'.reviews ≡ some row

  replayed :
      fetch_row (λ r. r.review_id) row.review_id l.reviews ≡ none
      → is_replay (λ r. r.review_id) same_review row (l.reviews ++ (row ∷ [])) ≡ ok true
  unfolding is_replay
  replayed h =
      rw (fetch_row_appended (λ r. r.review_id) row l.reviews h, is_replay)
        (rw (same_review_refl row) refl)

  repeated :
      {u w : Unit {0}} {m : Moment}
      → check_verdict row ≡ ok u
      → require_sha256 row.policy_sha256 ≡ ok w
      → require_tz_iso row.reviewed_at ≡ ok m
      → fetch_row (λ r. r.review_id) row.review_id l.reviews ≡ none
      → append_risk_review julianday row (record l { reviews = l.reviews ++ (row ∷ []) })
        ≡ ok (record l { reviews = l.reviews ++ (row ∷ []) })
  unfolding append_risk_review
  repeated v s t h = rw v (rw s (rw t (rw (replayed h) refl)))

  inserted :
      {u w : Unit {0}} {m : Moment}
      → check_verdict row ≡ ok u
      → require_sha256 row.policy_sha256 ≡ ok w
      → require_tz_iso row.reviewed_at ≡ ok m
      → is_replay (λ r. r.review_id) same_review row l.reviews ≡ ok false
      → has_value (λ r. r.proposal_id) row.proposal_id l.reviews ≡ false
      → IsReplayed (record l { reviews = l.reviews ++ (row ∷ []) })
  inserted v s t e fresh = record {
    appended = refl;
    again = repeated v s t (is_replay-none row l.reviews e);
    found =
        fetch_row_appended (λ r. r.proposal_id) row l.reviews
          (has_value-none (λ r. r.proposal_id) row.proposal_id l.reviews fresh);
  }

  no_review : (a b c d : Bool) → (a || b || c || d) ≡ false → b ≡ false
  no_review a b c d h = ground arith

  -- A call of `append_risk_review` that succeeds changes nothing, or it appends the row to the reviews;
  -- the same call then succeeds again and changes nothing.
  pub append_risk_review-IsReplayed :
      IfOk (append_risk_review julianday row l) (λ l'. (l' ≡ l) ⊎ IsReplayed l')
  unfolding append_risk_review
  append_risk_review-IsReplayed =
      >>=-IfOk _ _ (check_verdict row) _ (IfOk_self (check_verdict row)) λ verdict v.
        >>=-IfOk _ _ (require_sha256 row.policy_sha256) _
          (IfOk_self (require_sha256 row.policy_sha256))
          λ sha s.
            >>=-IfOk _ _ (require_tz_iso row.reviewed_at) _
              (IfOk_self (require_tz_iso row.reviewed_at))
              λ reviewed t.
                >>=-IfOk _ _ (is_replay (λ r. r.review_id) same_review row l.reviews) _
                  (IfOk_self (is_replay (λ r. r.review_id) same_review row l.reviews))
                  λ seen e. elim (Bool-cases seen) [
                    | inl replay ↦ rw replay (inl refl)
                    | inr first ↦ rw first (
                        raise_if-IfOk_passed _
                          (not (has_value (λ p. p.proposal_id) row.proposal_id l.proposals)
                            || has_value (λ r. r.proposal_id) row.proposal_id l.reviews
                            || unread julianday row.reviewed_at
                            || precedes_row julianday row.reviewed_at (λ p. p.proposed_at)
                                (fetch_row (λ p. p.proposal_id) row.proposal_id l.proposals))
                          aborted _
                          λ h.
                            inr (inserted v s t (e ∙ ap (λ x. ok x) first) (no_review _ _ _ _ h)))
                  ]
