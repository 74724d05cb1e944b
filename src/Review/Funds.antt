-- ===== src/Review/Funds.antt =====
-- What other reviews hold back only lowers the cash that a review of strategy/paper_risk.py sees.
use kronos_stock.Common.{
  ap, ℕ, String, List, [], ◌∷◌, ◌≡◌, refl, Bool, true, false, Option, none, some, Result, ok, err,
  not, ◌||◌, IfOk, raise_if-IfOk_passed, IfOk_map, >>=-IfOk, after-IfOk, or_raise, arith, ◌+◌,
  str_eq, raise_if, ltb, ◌∙◌,
}
use kronos_stock.Common.Int.{ℤ, pos, negsuc, ◌≤ℤ◌, ◌-ℤ◌, ltb_ℤ, int_laws}
use kronos_stock.Common.Time.{Moment}
use kronos_stock.Symbols.{PerSymbol, buy, sell, Symbol, Side, get}
use kronos_stock.Features.Records.{SymbolFeatureOutput}
use kronos_stock.Risk.Records.{RiskInput}
use kronos_stock.Ledger.Records.{Ledger}
use kronos_stock.Ledger.Checks.{LedgerError, position}
use kronos_stock.Ledger.Same.{same_int}
use kronos_stock.Ledger.Nav.{cash_balance_as_of}
use kronos_stock.Review.Navs.{Checked, read_current, read_history, history_of, canonical_price}
use kronos_stock.Review.Persist.{ReviewCall, read_portfolio}
use kronos_stock.Review.Records.{review_time, inconsistent, Portfolio, Reviewing, or_inconsistent}
use kronos_stock.Review.Gates.{Joined, accepted_others}
use kronos_stock.Review.Reservations.{
  Effective, hold_back, reserve, reserve_all, apply_state, count_dated,
}
use kronos_stock.Review.Navs.{current_nav}
use kronos_stock.Ledger.Nav.{positions_as_of}
use kronos_stock.Symbols.{s005930, s000660}

-- There is no more cash than before.
abbrev pub IsBelow : Effective → Effective → Type 0
IsBelow s s' = s'.cash ≤ℤ s.cash

hold_back-IsBelow :
    (side : Side) (symbol : Symbol) (quantity price : ℕ) (s : Effective)
    → IfOk (hold_back side symbol quantity price s) (IsBelow s)
unfolding hold_back
hold_back-IsBelow buy symbol quantity price s = omega int_laws
hold_back-IsBelow sell symbol quantity price s =
    after-IfOk _ (raise_if (ltb_ℤ (get s.holdings symbol -ℤ pos quantity) (pos 0)) inconsistent) _
      λ done. omega arith

apply_state-IsBelow :
    (state : Option Bool) (today : Bool) (j : Joined) (quantity price : ℕ) (s : Effective)
    → IfOk (apply_state state today j quantity price s) (IsBelow s)
unfolding apply_state
apply_state-IsBelow none true j quantity price s =
    hold_back-IsBelow j.proposal.side j.proposal.symbol quantity price
      (record s { pending = s.pending + 1 })
apply_state-IsBelow none false j quantity price s =
    hold_back-IsBelow j.proposal.side j.proposal.symbol quantity price s
apply_state-IsBelow (some true) today j quantity price s =
    hold_back-IsBelow j.proposal.side j.proposal.symbol quantity price s
apply_state-IsBelow (some false) today j quantity price s = omega arith

reserve-IsBelow :
    (l : Ledger) (session_id : String) (j : Joined) (s : Effective)
    → IfOk (reserve l session_id j s) (IsBelow s)
unfolding reserve
reserve-IsBelow l session_id j s = search (after-IfOk, apply_state-IsBelow) depth 12

-- The reservations of accepted reviews leave no more cash than there was.
pub reserve_all-IsBelow :
    (l : Ledger) (session_id : String) (js : List Joined) (s : Effective)
    → IfOk (reserve_all l session_id js s) (IsBelow s)
unfolding reserve_all
reserve_all-IsBelow l session_id [] s = omega arith
reserve_all-IsBelow l session_id (j ∷ js) s =
    >>=-IfOk _ _ (reserve l session_id j s) _ (reserve-IsBelow l session_id j s) λ s' h.
      IfOk_map _ _ (reserve_all l session_id js s') (reserve_all-IsBelow l session_id js s')
        λ s'' k. omega (arith, h, k)

-- A call of the ledger whose value is passed on returned it.
or_inconsistent-same :
    {A : Type 0} (m : Result LedgerError A) → IfOk (or_inconsistent m) (λ a. m ≡ ok a)
or_inconsistent-same (ok a) = refl
or_inconsistent-same (err e) = tt

same_int-≡ : (a b : ℤ) → same_int a b ≡ true → a ≡ b
same_int-≡ (pos a) (pos b) h = ap pos (ground arith)
same_int-≡ (pos a) (negsuc b) h = ground arith
same_int-≡ (negsuc a) (pos b) h = ground arith
same_int-≡ (negsuc a) (negsuc b) h = ap negsuc (ground arith)

agree : (a b : Bool) → (not a || not b) ≡ false → b ≡ true
agree a b h = ground arith

module _ {V : Type 0} (env : Reviewing V) (l : Ledger) (c : ReviewCall) (reviewed : Moment)
    (r : RiskInput V) (valuations : PerSymbol (Option (SymbolFeatureOutput V))) where
  -- The cash that the review reads is the ledger's at the time of the review.
  Balance : Checked → Type 0
  Balance current = cash_balance_as_of l r.account_id c.reviewed_at ≡ ok current.cash

  read_current-Balance : IfOk (read_current env l c.reviewed_at reviewed r valuations) Balance
  unfolding read_current Balance
  read_current-Balance =
      after-IfOk _
        (or_raise (current_nav env r.account_id r.session_id c.reviewed_at l.nav_snapshots)
          inconsistent)
        _
        λ n. after-IfOk _ (review_time n.snapshot_at) _ λ time.
          after-IfOk _ (or_inconsistent (cash_balance_as_of l r.account_id n.snapshot_at)) _ λ cash.
            after-IfOk _ (or_inconsistent (positions_as_of l r.account_id n.snapshot_at)) _
              λ holdings.
                >>=-IfOk _ _ (or_inconsistent (cash_balance_as_of l r.account_id c.reviewed_at)) _
                  (or_inconsistent-same (cash_balance_as_of l r.account_id c.reviewed_at))
                  λ reviewed_cash balance.
                    after-IfOk _ (or_inconsistent (positions_as_of l r.account_id c.reviewed_at)) _
                      λ reviewed_holdings.
                        after-IfOk _
                          (raise_if
                            (ltb reviewed.instant time.instant
                              || not (str_eq time.date r.session_id))
                            inconsistent)
                          _
                          λ in_session.
                            raise_if-IfOk_passed _
                              (not (same_int n.cash_krw cash) || not (same_int reviewed_cash cash))
                              inconsistent _
                              λ h.
                                let settled : reviewed_cash ≡ cash = same_int-≡ reviewed_cash cash (
                                  agree (same_int n.cash_krw cash) (same_int reviewed_cash cash)
                                    h) in
                                let known : cash_balance_as_of l r.account_id c.reviewed_at
                                    ≡ ok cash =
                                  balance ∙ ap (λ x. ok x) settled in
                                search (after-IfOk, known) depth 12

  -- The portfolio's cash is covered by the ledger's.
  pub record IsFunded (p : Portfolio) : Type 0 where
    pub cash : ℤ
    pub balance : cash_balance_as_of l r.account_id c.reviewed_at ≡ ok cash
    pub covered : p.cash_krw ≤ℤ cash

  opening : Checked → Effective
  opening current = record {
    cash = current.cash;
    holdings = current.holdings;
    position_value = current.nav.position_value_krw;
    pending = 0;
  }

  pub read_portfolio-IsFunded : IfOk (read_portfolio env l c reviewed r valuations) IsFunded
  unfolding read_portfolio Balance opening
  read_portfolio-IsFunded =
      after-IfOk _
        (raise_if
          (ltb_ℤ (position l r.account_id s005930) (pos 0)
            || ltb_ℤ (position l r.account_id s000660) (pos 0))
          inconsistent)
        _
        λ longs.
          >>=-IfOk _ _ (read_current env l c.reviewed_at reviewed r valuations) _
            read_current-Balance
            λ current balance. after-IfOk _ (canonical_price env r.feature_snapshot) _ λ price.
              after-IfOk _
                (read_history l r.account_id r.session_id reviewed
                  (record { high_water = none; prior = none })
                  (history_of env l r.account_id r.session_id))
                _
                λ highs. after-IfOk _ (or_raise highs.high_water inconsistent) _ λ high.
                  >>=-IfOk _ _
                    (reserve_all l r.session_id
                      (accepted_others l r.account_id c.proposal_id l.reviews) (opening current))
                    _
                    (reserve_all-IsBelow l r.session_id
                      (accepted_others l r.account_id c.proposal_id l.reviews) (opening current))
                    λ effective below.
                      after-IfOk _ (raise_if (ltb_ℤ effective.cash (pos 0)) inconsistent) _
                        λ solvent.
                          after-IfOk _
                            (count_dated (λ o. o.account_id) (λ o. o.created_at) r.account_id
                              r.session_id l.orders)
                            _
                            λ orders.
                              after-IfOk _
                                (count_dated (λ f. f.account_id) (λ f. f.filled_at) r.account_id
                                  r.session_id l.fills)
                                _
                                λ fills. record {
                                  cash = current.cash;
                                  balance = balance;
                                  covered = below;
                                }
