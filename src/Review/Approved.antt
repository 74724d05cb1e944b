-- ===== src/Review/Approved.antt =====
-- What an approval that `review_and_persist` (strategy/paper_risk.py) stores rests on in the ledger.
use kronos_stock.Common.{
  ℕ, String, ◌≡◌, inl, inr, refl, ap, true, Option, none, some, Result, ok, err, raise_if, or_raise,
  ◌>>=◌, IfOk, >>=-IfOk, after-IfOk, or_raise-IfOk, IfOk-ok, if◌then◌else◌, Bool-cases, ◌∙◌,
}
use kronos_stock.Common.Int.{ℤ, pos, ◌≤ℤ◌}
use kronos_stock.Common.Time.{Moment, is_sha256}
use kronos_stock.Symbols.{PerSymbol}
use kronos_stock.Features.Records.{SymbolFeatureOutput}
use kronos_stock.Risk.Records.{RiskInput, RiskResult, Verdict, bad_label, RiskError}
use kronos_stock.Ledger.Records.{Ledger, RiskReview, ReviewVerdict, rejected_review}
use kronos_stock.Review.Records.{
  review_identity, Portfolio, Gate, account_disabled, kill_engaged, duplicated, open_gate,
  Authoritative, Reviewing, natural, from_risk, stored_verdict, review_time, accepts, inconsistent,
  from_ledger, ledger_error, untimely,
}
use kronos_stock.Review.Persist.{
  with_gate, authoritative_input, ReviewCall, store_review, review_row, review_state,
  review_and_persist, read_portfolio, read_state, reviewed_otherwise,
}
use kronos_stock.Common.{sym, subst}
use kronos_stock.Ledger.Append.{append_risk_review}
use kronos_stock.Ledger.Nav.{cash_balance_as_of}
use kronos_stock.Risk.Verdict.{Approves, IsJustified, evaluate_risk-IsJustified, Concludes}
use kronos_stock.Review.Opened.{IsOpen, Behind, IsRead, read_state-IsRead, PortfolioBehind}
use kronos_stock.Review.Funds.{IsFunded, read_portfolio-IsFunded}
use kronos_stock.Ledger.Checks.{LedgerError, bad_choice}
use kronos_stock.Risk.Evaluate.{evaluate_risk}
use mathlib.Core.Bool.{true≢false}
use mathlib.Core.Option.{some-injective, none-ne-some}
use kronos_stock.Review.Input.{Revalues, IsInput, authoritative_input-IsInput}

module _ {V : Type 0} (env : Reviewing V) (l : Ledger) (c : ReviewCall) (r : RiskInput V)
    (valuations : PerSymbol (Option (SymbolFeatureOutput V))) where
  -- What an approval of the quantity rests on.
  pub record IsBacked (q : ℕ) (verdict : ReviewVerdict) : Type 0 where
    pub reviewed : Moment
    pub read_at : review_time c.reviewed_at ≡ ok reviewed
    pub is_open : IsOpen l c.proposal_id reviewed r
    pub input : RiskInput V
    pub revalues : Revalues (with_gate env open_gate r) input
    pub cash : ℤ
    pub balance : cash_balance_as_of l r.account_id c.reviewed_at ≡ ok cash
    pub covered : pos input.cash_krw ≤ℤ cash
    pub risk_verdict : Verdict
    pub stored_as : stored_verdict risk_verdict ≡ some verdict
    pub approves : Approves env.ops env.canonical_output_id input c.policy (some q) risk_verdict

  -- A review without a quantity is a rejection.
  abbrev pub Backed : Option ℕ → ReviewVerdict → Type 0
  Backed none verdict = verdict ≡ rejected_review
  Backed (some q) verdict = IsBacked q verdict

  -- The stored row.
  pub record IsStored (l' : Ledger) (review_id : String) : Type 0 where
    pub row : RiskReview
    pub appended : append_risk_review env.julianday row l ≡ ok l'
    pub identity : row.review_id ≡ review_id
    pub proposal : row.proposal_id ≡ c.proposal_id
    pub backed : Backed row.approved_quantity row.verdict

  abbrev pub Rests : (Ledger × Option String) → Type 0
  Rests (l', none) = l' ≡ l
  Rests (l', some review_id) = IsStored l' review_id

  from_risk-Justified :
      (input : RiskInput V) (m : Result RiskError RiskResult)
      → Concludes env.ops env.canonical_output_id input c.policy m
      → IfOk (from_risk m) (IsJustified env.ops env.canonical_output_id input c.policy)
  from_risk-Justified input (ok res) h = h
  from_risk-Justified input (err e) h = tt

  -- An approved input has the flags of the open gate.
  approved_gate :
      (gate : Gate) (portfolio : Option Portfolio) (reviewed : Moment)
      → review_time c.reviewed_at ≡ ok reviewed
      → Behind l c.proposal_id reviewed r gate
      → PortfolioBehind env l c r valuations reviewed gate portfolio
      → (input : RiskInput V) → Revalues (with_gate env gate r) input
      → ((p : Portfolio) → portfolio ≡ some p → p.cash_krw ≡ pos input.cash_krw)
      → (q : ℕ) (v : Verdict) (verdict : ReviewVerdict)
      → Approves env.ops env.canonical_output_id input c.policy (some q) v
      → stored_verdict v ≡ some verdict
      → IsBacked q verdict
  unfolding with_gate
  approved_gate open_gate (some p) reviewed t b e input h k q v verdict a s =
      let f =
        IfOk-ok (IsFunded env l c reviewed r valuations)
          (read_portfolio env l c reviewed r valuations)
          (read_portfolio-IsFunded env l c reviewed r valuations) e in
      record {
        reviewed = reviewed;
        read_at = t;
        is_open = b;
        input = input;
        revalues = h;
        cash = f.cash;
        balance = f.balance;
        covered = subst (λ x. x ≤ℤ f.cash) (k p refl) f.covered;
        risk_verdict = v;
        stored_as = s;
        approves = a;
      }
  approved_gate open_gate none reviewed t b e input h k q v verdict a s = absurd e
  approved_gate (account_disabled x) portfolio reviewed t b e input h k q v verdict a s =
      absurd (true≢false (sym a.0.enabled ∙ ap (λ y. y.trading_enabled) h))
  approved_gate (kill_engaged x) portfolio reviewed t b e input h k q v verdict a s =
      absurd (true≢false (sym (ap (λ y. y.kill_switch_engaged) h) ∙ a.0.not_killed))
  approved_gate duplicated portfolio reviewed t b e input h k q v verdict a s =
      absurd (true≢false (sym (ap (λ y. y.duplicate_state_snapshot) h) ∙ a.0.not_duplicate))

  backing :
      (state : Authoritative)
      → IsRead env l c r valuations state
      → (input : RiskInput V) → IsInput env r state input
      → (quantity : Option ℕ) (v : Verdict)
      → Approves env.ops env.canonical_output_id input c.policy quantity v
      → (verdict : ReviewVerdict) → stored_verdict v ≡ some verdict
      → Backed quantity verdict
  backing state read input made none v (inl refused) verdict s =
      some-injective _ _ (sym s ∙ ap stored_verdict refused)
  backing state read input made none v (inr idle) verdict s =
      absurd (none-ne-some verdict (sym (ap stored_verdict idle) ∙ s))
  backing state read input made (some q) v a verdict s =
      approved_gate state.gate state.portfolio read.reviewed read.read_at read.behind read.portfolio
        input made.revalues made.cash q v verdict a s

  pub review_row-same :
      (review_id : String) (portfolio : Option Portfolio) (res : RiskResult)
      (verdict : ReviewVerdict)
      → IfOk (review_row env review_id c portfolio res verdict) (λ row.
        (row.review_id ≡ review_id)
        × (row.proposal_id ≡ c.proposal_id)
        × (row.verdict ≡ verdict)
        × (row.approved_quantity ≡ res.approved_quantity))
  unfolding review_row
  review_row-same review_id portfolio res verdict =
      after-IfOk _
        (if accepts verdict
          then elim portfolio [
            | none ↦ ok none
            | some p ↦
                or_raise (elim (natural p.price_krw) [ none ↦ none | some n ↦ some (some n) ])
                  inconsistent
          ]
          else ok none)
        _ λ price. (refl, refl, refl, refl)

  from_ledger-same : {A : Type 0} (m : Result LedgerError A) → IfOk (from_ledger m) (λ a. m ≡ ok a)
  from_ledger-same (ok a) = refl
  from_ledger-same (err e) = tt

  stored-Rests :
      (review_id : String) (portfolio : Option Portfolio) (res : RiskResult)
      → ((verdict : ReviewVerdict)
          → stored_verdict res.verdict ≡ some verdict
          → Backed res.approved_quantity verdict)
      → IfOk
          (do
            verdict ← or_raise (stored_verdict res.verdict) (ledger_error bad_choice)
            row ← review_row env review_id c portfolio res verdict
            l' ← from_ledger (append_risk_review env.julianday row l)
            ok (l', some review_id))
          Rests
  stored-Rests review_id portfolio res h =
      >>=-IfOk _ _ (or_raise (stored_verdict res.verdict) (ledger_error bad_choice)) _
        (or_raise-IfOk (stored_verdict res.verdict) (ledger_error bad_choice))
        λ verdict s.
          >>=-IfOk _ _ (review_row env review_id c portfolio res verdict) _
            (review_row-same review_id portfolio res verdict)
            λ row (i, p, v, q).
              >>=-IfOk _ _ (from_ledger (append_risk_review env.julianday row l)) _
                (from_ledger-same (append_risk_review env.julianday row l))
                λ l' e. record {
                  row = row;
                  appended = e;
                  identity = i;
                  proposal = p;
                  backed =
                      subst (λ w. Backed row.approved_quantity w) (sym v)
                        (subst (λ n. Backed n verdict) (sym q) (h verdict s));
                }

  store_review-Rests :
      (review_id : String) (portfolio : Option Portfolio) (res : RiskResult)
      → ((verdict : ReviewVerdict)
          → stored_verdict res.verdict ≡ some verdict
          → Backed res.approved_quantity verdict)
      → IfOk (store_review env l review_id c portfolio res) Rests
  unfolding store_review
  store_review-Rests review_id portfolio res h = elim (Bool-cases res.order_required) [
    | inr idle ↦ rw idle refl
    | inl ordered ↦ rw ordered (stored-Rests review_id portfolio res h)
  ]

  review_state-Rests :
      is_sha256 (env.policy_sha256 c.policy) ≡ true
      → (state : Authoritative) → IsRead env l c r valuations state
      → IfOk (review_state env l c r state) Rests
  unfolding review_state
  review_state-Rests sha state read =
      after-IfOk _
        (raise_if
          (reviewed_otherwise env l c
            (review_identity env c.proposal_id c.reviewed_at r c.policy state))
          inconsistent)
        _
        λ first.
          >>=-IfOk _ _ (authoritative_input env state r) _ (authoritative_input-IsInput env r state)
            λ input made.
              >>=-IfOk (IsJustified env.ops env.canonical_output_id input c.policy) _
                (from_risk
                  (evaluate_risk env.ops env.canonical_output_id env.policy_sha256 input c.policy))
                _
                (from_risk-Justified input
                  (evaluate_risk env.ops env.canonical_output_id env.policy_sha256 input c.policy)
                  (evaluate_risk-IsJustified env.ops env.canonical_output_id env.snapshot_digest
                    env.policy_sha256 input c.policy made.valid sha))
                λ res justified.
                  store_review-Rests
                    (review_identity env c.proposal_id c.reviewed_at r c.policy state)
                    state.portfolio res
                    λ verdict s.
                      backing state read input made res.approved_quantity res.verdict justified.1
                        verdict s

  -- With a digest of the policy that is a SHA-256 text, a review that does not raise leaves the
  -- ledger as it was and stores nothing, or its ledger is that of `append_risk_review` of one row,
  -- with the identity that it returns and the proposal of the call. Without a quantity the row is a
  -- rejection. With a quantity the account was enabled at the time of the review, its kill switch
  -- released, and no other accepted review of the symbol belonged to the session; the row's verdict is
  -- that of an approval by `evaluate_risk` (the limits, the purchase or the sale, and the current data)
  -- of the request with the flags of the open gate and with other values of the portfolio; the cash of
  -- that portfolio is at most the account's cash in the ledger as of the time of the review.
  pub review_and_persist-Rests :
      is_sha256 (env.policy_sha256 c.policy) ≡ true
      → IfOk (review_and_persist env l c r valuations) Rests
  unfolding review_and_persist
  review_and_persist-Rests sha =
      after-IfOk _ (raise_if (bad_label c.proposal_id) untimely) _ λ labelled.
        >>=-IfOk _ _ (read_state env l c r valuations) _ (read_state-IsRead env l c r valuations)
          λ state read. review_state-Rests sha state read
