-- ===== src/Review/Unchanged.antt =====
-- What `review_and_persist` (strategy/paper_risk.py) reads does not depend on its own review.
use kronos_stock.Common.{
  String, List, [], ◌∷◌, ◌++◌, ◌≡◌, refl, ap, subst, ◌∙◌, true, not, ◌&&◌, ◌||◌, Option, none, some,
  Result, ok, err, ◌>>=◌, raise_if, or_raise, if◌then◌else◌, arith, str_eq, Bool-cases, inl, inr,
  eq_iff,
}
use kronos_stock.Common.Time.{Moment, str_lt}
use kronos_stock.Symbols.{PerSymbol, s005930, s000660}
use kronos_stock.Features.Records.{SymbolFeatureOutput}
use kronos_stock.Risk.Records.{RiskInput}
use kronos_stock.Ledger.Records.{Ledger, RiskReview, NavSnapshot}
use kronos_stock.Ledger.Checks.{position}
use kronos_stock.Ledger.Nav.{cash_balance_as_of, positions_as_of}
use kronos_stock.Review.Records.{
  Reviewing, Gate, accepts, inconsistent, review_time, open_gate, account_disabled, kill_engaged,
  duplicated,
}
use kronos_stock.Review.Binding.{bind_proposal}
use kronos_stock.Review.Gates.{
  Joined, join_review, accepted_others, account_state, kill_switch_state, duplicate_gate, kill_gate,
  find_gate,
}
use kronos_stock.Review.Navs.{
  Highs, read_current, check_history, read_history, history_of, raise_high, canonical_price,
}
use kronos_stock.Review.Reservations.{Effective, order_open, reserve, reserve_all}
use kronos_stock.Review.Persist.{ReviewCall, read_portfolio, portfolio_behind, read_state}
use kronos_stock.Common.Int.{ltb_ℤ, pos}

-- Calls that go on alike.
>>=-same :
    {E A B : Type 0} (m : Result E A) (f g : A → Result E B)
    → ((a : A) → f a ≡ g a)
    → (m >>= f) ≡ (m >>= g)
>>=-same (ok a) f g h = h a
>>=-same (err e) f g h = refl

>>=-cong :
    {E A B : Type 0} (m m' : Result E A) (f g : A → Result E B)
    → m ≡ m'
    → ((a : A) → f a ≡ g a)
    → (m >>= f) ≡ (m' >>= g)
>>=-cong m m' f g e h = ap (λ x. x >>= f) e ∙ >>=-same m' f g h

module _ (l : Ledger) (row : RiskReview) where
  -- The ledger with the review appended.
  abbrev pub with_review : Ledger
  with_review = record l { reviews = l.reviews ++ (row ∷ []) }

  accepted_others-own :
      (account_id : String) → accepted_others with_review account_id row.proposal_id (row ∷ []) ≡ []
  unfolding accepted_others
  accepted_others-own account_id =
      let same : str_eq row.proposal_id row.proposal_id ≡ true =
        ground (arith, eq_iff row.proposal_id row.proposal_id) in
      rw same (elim (Bool-cases (accepts row.verdict)) [
        | inl taken ↦ rw taken refl
        | inr left_out ↦ rw left_out refl
      ])

  accepted_others-same :
      (account_id : String) (rs : List RiskReview)
      → accepted_others with_review account_id row.proposal_id (rs ++ (row ∷ []))
        ≡ accepted_others l account_id row.proposal_id rs
  unfolding accepted_others join_review
  accepted_others-same account_id [] = accepted_others-own account_id
  accepted_others-same account_id (r ∷ rs) =
      ap
        (λ rest.
          if accepts r.verdict && not (str_eq r.proposal_id row.proposal_id)
          then elim (join_review l r) [
            | none ↦ rest
            | some j ↦ if str_eq j.proposal.account_id account_id then j ∷ rest else rest
          ]
          else rest)
        (accepted_others-same account_id rs)

  reserve_all-same :
      (session_id : String) (js : List Joined) (s : Effective)
      → reserve_all with_review session_id js s ≡ reserve_all l session_id js s
  unfolding reserve_all reserve order_open
  reserve_all-same session_id [] s = refl
  reserve_all-same session_id (j ∷ js) s =
      >>=-same (reserve l session_id j s) _ _ λ s'. reserve_all-same session_id js s'

  read_history-same :
      (account_id session_id : String) (reviewed : Moment) (h : Highs) (ns : List NavSnapshot)
      → read_history with_review account_id session_id reviewed h ns
        ≡ read_history l account_id session_id reviewed h ns
  unfolding read_history check_history cash_balance_as_of positions_as_of
  read_history-same account_id session_id reviewed h [] = refl
  read_history-same account_id session_id reviewed h (n ∷ ns) =
      >>=-same (check_history l account_id reviewed n) _ _ λ v.
        read_history-same account_id session_id reviewed
          (record {
            high_water = raise_high v h.high_water;
            prior = if str_lt n.session_date session_id then some v else h.prior;
          })
          ns

module _ {V : Type 0} (env : Reviewing V) (l : Ledger) (c : ReviewCall) (r : RiskInput V)
    (valuations : PerSymbol (Option (SymbolFeatureOutput V))) (row : RiskReview) where
  duplicate_gate-same :
      (reviewed : Moment)
      → duplicate_gate (with_review l row) row.proposal_id reviewed r
        ≡ duplicate_gate l row.proposal_id reviewed r
  unfolding duplicate_gate
  duplicate_gate-same reviewed = rw (accepted_others-same l row r.account_id l.reviews) refl

  kill_gate-same :
      (reviewed : Moment)
      → kill_gate (with_review l row) row.proposal_id reviewed r
        ≡ kill_gate l row.proposal_id reviewed r
  unfolding kill_gate kill_switch_state
  kill_gate-same reviewed = rw (duplicate_gate-same reviewed) refl

  find_gate-same :
      (reviewed : Moment)
      → find_gate (with_review l row) row.proposal_id reviewed r
        ≡ find_gate l row.proposal_id reviewed r
  unfolding find_gate account_state
  find_gate-same reviewed = rw (kill_gate-same reviewed) refl

  others-same :
      row.proposal_id ≡ c.proposal_id
      → accepted_others (with_review l row) r.account_id c.proposal_id (l.reviews ++ (row ∷ []))
        ≡ accepted_others l r.account_id c.proposal_id l.reviews
  others-same own =
      subst
        (λ x.
          accepted_others (with_review l row) r.account_id x (l.reviews ++ (row ∷ []))
          ≡ accepted_others l r.account_id x l.reviews)
        own (accepted_others-same l row r.account_id l.reviews)

  reservations-same :
      (s : Effective)
      → row.proposal_id ≡ c.proposal_id
      → reserve_all
          (with_review l row)
          r.session_id
          (accepted_others (with_review l row) r.account_id c.proposal_id (l.reviews ++ (row ∷ [])))
          s
        ≡ reserve_all l r.session_id (accepted_others l r.account_id c.proposal_id l.reviews) s
  reservations-same s own =
      ap (λ js. reserve_all (with_review l row) r.session_id js s) (others-same own)
      ∙ reserve_all-same l row r.session_id (accepted_others l r.account_id c.proposal_id l.reviews)
          s

  read_portfolio-same :
      (reviewed : Moment)
      → row.proposal_id ≡ c.proposal_id
      → read_portfolio env (with_review l row) c reviewed r valuations
        ≡ read_portfolio env l c reviewed r valuations
  unfolding read_portfolio read_current history_of
  read_portfolio-same reviewed own =
      >>=-same
        (raise_if
          (ltb_ℤ (position l r.account_id s005930) (pos 0)
            || ltb_ℤ (position l r.account_id s000660) (pos 0))
          inconsistent)
        _ _
        λ longs. >>=-same (read_current env l c.reviewed_at reviewed r valuations) _ _ λ current.
          >>=-same (canonical_price env r.feature_snapshot) _ _ λ price.
            >>=-cong _ _ _ _
              (read_history-same l row r.account_id r.session_id reviewed
                (record { high_water = none; prior = none })
                (history_of env l r.account_id r.session_id))
              λ highs.
                >>=-same (or_raise highs.high_water inconsistent) _ _
                  λ high. >>=-cong _ _ _ _ (reservations-same _ own) λ effective. refl

  portfolio_behind-same :
      (gate : Gate) (reviewed : Moment)
      → row.proposal_id ≡ c.proposal_id
      → portfolio_behind env gate (with_review l row) c reviewed r valuations
        ≡ portfolio_behind env gate l c reviewed r valuations
  unfolding portfolio_behind
  portfolio_behind-same open_gate reviewed own = rw (read_portfolio-same reviewed own) refl
  portfolio_behind-same (account_disabled e) reviewed own = refl
  portfolio_behind-same (kill_engaged e) reviewed own = refl
  portfolio_behind-same duplicated reviewed own = refl

  gate-same :
      (reviewed : Moment)
      → row.proposal_id ≡ c.proposal_id
      → find_gate (with_review l row) c.proposal_id reviewed r
        ≡ find_gate l c.proposal_id reviewed r
  gate-same reviewed own =
      subst (λ x. find_gate (with_review l row) x reviewed r ≡ find_gate l x reviewed r) own
        (find_gate-same reviewed)

  pub read_state-same :
      row.proposal_id ≡ c.proposal_id
      → read_state env (with_review l row) c r valuations ≡ read_state env l c r valuations
  unfolding read_state bind_proposal
  read_state-same own = >>=-same (review_time c.reviewed_at) _ _ λ reviewed.
      >>=-same (bind_proposal l c.proposal_id reviewed r) _ _ λ binding.
        >>=-cong _ _ _ _ (gate-same reviewed own)
          λ gate. >>=-cong _ _ _ _ (portfolio_behind-same gate reviewed own) λ portfolio. refl
