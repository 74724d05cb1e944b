-- ===== src/Review/Repeat.antt =====
-- A repeated call of `review_and_persist` (strategy/paper_risk.py).
use kronos_stock.Common.{
  String, ◌≡◌, refl, ap, sym, subst, ◌∙◌, true, false, Option, some, Result, ok, err, raise_if,
  or_raise, arith, str_eq, IfOk, >>=-IfOk, IfOk_self, raise_if-IfOk_passed, Bool-cases, ◌⊎◌, inl,
  inr, eq_iff, IfOk_both, after-IfOk, IfOk-ok,
}
use kronos_stock.Symbols.{PerSymbol}
use kronos_stock.Features.Records.{SymbolFeatureOutput}
use kronos_stock.Risk.Records.{RiskInput, RiskResult, bad_label}
use kronos_stock.Risk.Evaluate.{evaluate_risk}
use kronos_stock.Ledger.Records.{Ledger, RiskReview, ReviewVerdict}
use kronos_stock.Ledger.Checks.{fetch_row, bad_choice, LedgerError}
use kronos_stock.Ledger.Append.{append_risk_review}
use kronos_stock.Review.Records.{
  Reviewing, Authoritative, inconsistent, review_identity, from_risk, from_ledger, stored_verdict,
  ledger_error, untimely,
}
use kronos_stock.Review.Persist.{
  ReviewCall, read_state, authoritative_input, review_row, store_review, review_state,
  reviewed_otherwise, review_and_persist,
}
use kronos_stock.Ledger.Replay.{append_risk_review-IsReplayed}
use kronos_stock.Review.Approved.{review_row-same}
use kronos_stock.Review.Unchanged.{read_state-same}

module _ {V : Type 0} (env : Reviewing V) (l : Ledger) (c : ReviewCall) (r : RiskInput V)
    (valuations : PerSymbol (Option (SymbolFeatureOutput V))) where
  -- The call changes nothing, or the same call does the same again on the resulting ledger.
  abbrev Repeats : (Ledger × Option String) → Type 0
  Repeats (l', id) = (l' ≡ l) ⊎ (review_and_persist env l' c r valuations ≡ ok (l', id))

  other_review :
      (l' : Ledger) (row : RiskReview)
      → row.proposal_id ≡ c.proposal_id
      → fetch_row (λ x. x.proposal_id) row.proposal_id l'.reviews ≡ some row
      → reviewed_otherwise env l' c row.review_id ≡ false
  other_review l' row own found =
      let same : str_eq row.review_id row.review_id ≡ true =
        ground (arith, eq_iff row.review_id row.review_id) in
      rw
        (
          ap (λ x. fetch_row (λ y. y.proposal_id) x l'.reviews) (sym own) ∙ found,
          reviewed_otherwise,
        )
        (rw same refl)

  -- The steps of the repeated call.
  repeated_store :
      (l' : Ledger) (state : Authoritative) (input : RiskInput V) (res : RiskResult)
      (verdict : ReviewVerdict) (row : RiskReview)
      → bad_label c.proposal_id ≡ false
      → read_state env l' c r valuations ≡ ok state
      → reviewed_otherwise env l' c
          (review_identity env c.proposal_id c.reviewed_at r c.policy state)
        ≡ false
      → authoritative_input env state r ≡ ok input
      → from_risk (evaluate_risk env.ops env.canonical_output_id env.policy_sha256 input c.policy)
        ≡ ok res
      → res.order_required ≡ true
      → or_raise (stored_verdict res.verdict) (ledger_error bad_choice) ≡ ok verdict
      → review_row env
          (review_identity env c.proposal_id c.reviewed_at r c.policy state)
          c
          state.portfolio
          res
          verdict
        ≡ ok row
      → append_risk_review env.julianday row l' ≡ ok l'
      → review_and_persist env l' c r valuations
        ≡ ok (l', some (review_identity env c.proposal_id c.reviewed_at r c.policy state))
  unfolding review_and_persist review_state store_review
  repeated_store l' state input res verdict row label read first made judged ordered v e again =
      rw label (rw read (rw first (rw made (rw judged (rw ordered (rw v (rw e (rw again refl))))))))

  from_ledger-IfOk :
      {A : Type 0} (P : A → Type 0) (m : Result LedgerError A) → IfOk m P → IfOk (from_ledger m) P
  from_ledger-IfOk P (ok a) h = h
  from_ledger-IfOk P (err e) h = tt

  stored-Repeats :
      (state : Authoritative) (input : RiskInput V) (res : RiskResult)
      → bad_label c.proposal_id ≡ false
      → read_state env l c r valuations ≡ ok state
      → authoritative_input env state r ≡ ok input
      → from_risk (evaluate_risk env.ops env.canonical_output_id env.policy_sha256 input c.policy)
        ≡ ok res
      → IfOk
          (store_review env l
            (review_identity env c.proposal_id c.reviewed_at r c.policy state)
            c
            state.portfolio
            res)
          Repeats
  unfolding store_review
  stored-Repeats state input res label read made judged =
      let id = review_identity env c.proposal_id c.reviewed_at r c.policy state in
      elim (Bool-cases res.order_required) [
        | inr idle ↦ rw idle (inl refl)
        | inl ordered ↦ rw ordered (
            >>=-IfOk _ _ (or_raise (stored_verdict res.verdict) (ledger_error bad_choice)) _
              (IfOk_self (or_raise (stored_verdict res.verdict) (ledger_error bad_choice)))
              λ verdict v.
                >>=-IfOk _ _ (review_row env id c state.portfolio res verdict) _
                  (IfOk_both _ _ (review_row env id c state.portfolio res verdict)
                    (IfOk_self (review_row env id c state.portfolio res verdict))
                    (review_row-same env l c r valuations id state.portfolio res verdict))
                  λ row (e, (i, own, v', q)).
                    >>=-IfOk _ _ (from_ledger (append_risk_review env.julianday row l)) _
                      (from_ledger-IfOk _ (append_risk_review env.julianday row l)
                        (append_risk_review-IsReplayed env.julianday row l))
                      λ l' h. elim h [
                        | inl unchanged ↦ inl unchanged
                        | inr k ↦ inr (
                            repeated_store l' state input res verdict row label
                              (ap (λ x. read_state env x c r valuations) k.appended
                                ∙ read_state-same env l c r valuations row own
                                ∙ read)
                              (subst (λ x. reviewed_otherwise env l' c x ≡ false) i
                                (other_review l' row own k.found))
                              made judged ordered v e k.again)
                      ])
      ]

  review_and_persist-Repeats : IfOk (review_and_persist env l c r valuations) Repeats
  unfolding review_and_persist review_state
  review_and_persist-Repeats = raise_if-IfOk_passed _ (bad_label c.proposal_id) untimely _ λ label.
      >>=-IfOk _ _ (read_state env l c r valuations) _ (IfOk_self (read_state env l c r valuations))
        λ state read.
          after-IfOk _
            (raise_if
              (reviewed_otherwise env l c
                (review_identity env c.proposal_id c.reviewed_at r c.policy state))
              inconsistent)
            _
            λ first.
              >>=-IfOk _ _ (authoritative_input env state r) _
                (IfOk_self (authoritative_input env state r))
                λ input made.
                  >>=-IfOk _ _
                    (from_risk (
                      evaluate_risk env.ops env.canonical_output_id env.policy_sha256 input
                        c.policy))
                    _
                    (IfOk_self (
                      from_risk (
                        evaluate_risk env.ops env.canonical_output_id env.policy_sha256 input
                          c.policy)))
                    λ res judged. stored-Repeats state input res label read made judged

  -- A repeated review is a no-op: if a call gives a ledger and an identity (or none, for a result that
  -- orders nothing), then the same call on that ledger gives the same ledger and the same identity.
  pub review_and_persist-repeat :
      (l' : Ledger) (id : Option String)
      → review_and_persist env l c r valuations ≡ ok (l', id)
      → review_and_persist env l' c r valuations ≡ ok (l', id)
  review_and_persist-repeat l' id h =
      elim (IfOk-ok Repeats (review_and_persist env l c r valuations) review_and_persist-Repeats h)
        as (λ x. review_and_persist env l' c r valuations ≡ ok (l', id)) [
          | inl unchanged ↦
              subst (λ x. review_and_persist env x c r valuations ≡ ok (l', id)) (sym unchanged) h
          | inr again ↦ again
        ]
