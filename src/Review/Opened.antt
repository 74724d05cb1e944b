-- ===== src/Review/Opened.antt =====
-- What is known behind the gates of `review_and_persist` (strategy/paper_risk.py).
use kronos_stock.Common.{
  String, ◌≡◌, inl, inr, refl, ap, Bool, true, false, Option, none, some, ok, IfOk, >>=-IfOk,
  after-IfOk, if◌then◌else◌, filter, arith, Bool-cases, IfOk_self, ◌∙◌,
}
use kronos_stock.Common.Time.{Moment}
use kronos_stock.Symbols.{PerSymbol, same_symbol}
use kronos_stock.Features.Records.{SymbolFeatureOutput}
use kronos_stock.Risk.Records.{RiskInput}
use kronos_stock.Ledger.Records.{
  Ledger, account_enabled, released, AccountEventType, KillSwitchEventType,
}
use kronos_stock.Review.Records.{
  Portfolio, Gate, account_disabled, kill_engaged, duplicated, open_gate, Authoritative, Reviewing,
  review_time,
}
use kronos_stock.Review.Gates.{
  account_state, kill_switch_state, accepted_others, is_duplicate, is_enabled, is_released,
  duplicate_gate, kill_gate, find_gate,
}
use kronos_stock.Review.Persist.{ReviewCall, read_portfolio, portfolio_behind, read_state}
use kronos_stock.Review.Binding.{bind_proposal}

module _ {V : Type 0} (l : Ledger) (proposal_id : String) (reviewed : Moment)
    (r : RiskInput V) where
  -- The account is enabled, the kill switch released, and no other approval of the symbol belongs to
  -- the session.
  pub record IsOpen : Type 0 where
    pub enabled : account_state l r.account_id reviewed ≡ ok (some account_enabled)
    pub switch_released : kill_switch_state l r.account_id reviewed ≡ ok (some released)
    pub unduplicated :
        is_duplicate r.session_id (
          filter
            (λ j. same_symbol j.proposal.symbol r.symbol)
            (accepted_others l r.account_id proposal_id l.reviews))
        ≡ ok false

  abbrev IsEnabled : Type 0
  IsEnabled = account_state l r.account_id reviewed ≡ ok (some account_enabled)

  abbrev IsReleased : Type 0
  IsReleased = kill_switch_state l r.account_id reviewed ≡ ok (some released)

  -- Whether another accepted review of the symbol belongs to the session.
  abbrev Repeats : Bool → Type 0
  Repeats duplicate =
      is_duplicate r.session_id (
        filter (λ j. same_symbol j.proposal.symbol r.symbol)
          (accepted_others l r.account_id proposal_id l.reviews))
      ≡ ok duplicate

  -- What is known behind a gate.
  abbrev pub Behind : Gate → Type 0
  Behind open_gate = IsOpen
  Behind (account_disabled e) =
      (account_state l r.account_id reviewed ≡ ok e) × (is_enabled e ≡ false)
  Behind (kill_engaged e) =
      IsEnabled × (kill_switch_state l r.account_id reviewed ≡ ok e) × (is_released e ≡ false)
  Behind duplicated = IsEnabled × IsReleased × Repeats true

  is_enabled-some : (e : Option AccountEventType) → is_enabled e ≡ true → e ≡ some account_enabled
  is_enabled-some e h = ground arith

  is_released-some : (e : Option KillSwitchEventType) → is_released e ≡ true → e ≡ some released
  is_released-some e h = ground arith

  undecided :
      (duplicate : Bool)
      → IsEnabled
      → IsReleased
      → Repeats duplicate
      → Behind (if duplicate then duplicated else open_gate)
  undecided true a k e = (a, k, e)
  undecided false a k e = record { enabled = a; switch_released = k; unduplicated = e }

  duplicate_gate-Behind :
      IsEnabled → IsReleased → IfOk (duplicate_gate l proposal_id reviewed r) Behind
  unfolding duplicate_gate
  duplicate_gate-Behind a k =
      let others =
        filter (λ j. same_symbol j.proposal.symbol r.symbol)
          (accepted_others l r.account_id proposal_id l.reviews) in
      >>=-IfOk _ _ (is_duplicate r.session_id others) _
        (IfOk_self (is_duplicate r.session_id others)) (λ duplicate e. undecided duplicate a k e)

  kill_gate-Behind : IsEnabled → IfOk (kill_gate l proposal_id reviewed r) Behind
  unfolding kill_gate
  kill_gate-Behind a =
      >>=-IfOk _ _ (kill_switch_state l r.account_id reviewed) _
        (IfOk_self (kill_switch_state l r.account_id reviewed))
        λ kill e. elim (Bool-cases (is_released kill)) [
          | inl clear ↦
              rw clear (duplicate_gate-Behind a (e ∙ ap (λ x. ok x) (is_released-some kill clear)))
          | inr shut ↦ rw shut (a, e, shut)
        ]

  -- Behind the open gate the account is enabled, and so on.
  find_gate-Behind : IfOk (find_gate l proposal_id reviewed r) Behind
  unfolding find_gate
  find_gate-Behind =
      >>=-IfOk _ _ (account_state l r.account_id reviewed) _
        (IfOk_self (account_state l r.account_id reviewed))
        λ account e. elim (Bool-cases (is_enabled account)) [
          | inl enabled ↦
              rw enabled (kill_gate-Behind (e ∙ ap (λ x. ok x) (is_enabled-some account enabled)))
          | inr disabled ↦ rw disabled (e, disabled)
        ]

module _ {V : Type 0} (env : Reviewing V) (l : Ledger) (c : ReviewCall) (r : RiskInput V)
    (valuations : PerSymbol (Option (SymbolFeatureOutput V))) where
  -- The portfolio was read behind the open gate, and there only.
  abbrev pub PortfolioBehind : Moment → Gate → Option Portfolio → Type 0
  PortfolioBehind reviewed open_gate (some p) = read_portfolio env l c reviewed r valuations ≡ ok p
  PortfolioBehind reviewed open_gate none = ⊥
  PortfolioBehind reviewed gate p = p ≡ none

  portfolio_behind-read :
      (reviewed : Moment) (gate : Gate)
      → IfOk (portfolio_behind env gate l c reviewed r valuations) (PortfolioBehind reviewed gate)
  unfolding portfolio_behind
  portfolio_behind-read reviewed open_gate =
      >>=-IfOk _ _ (read_portfolio env l c reviewed r valuations) _
        (IfOk_self (read_portfolio env l c reviewed r valuations)) λ p e. e
  portfolio_behind-read reviewed (account_disabled e) = refl
  portfolio_behind-read reviewed (kill_engaged e) = refl
  portfolio_behind-read reviewed duplicated = refl

  -- The state that the review has read.
  pub record IsRead (state : Authoritative) : Type 0 where
    pub reviewed : Moment
    pub read_at : review_time c.reviewed_at ≡ ok reviewed
    pub behind : Behind l c.proposal_id reviewed r state.gate
    pub portfolio : PortfolioBehind reviewed state.gate state.portfolio

  pub read_state-IsRead : IfOk (read_state env l c r valuations) IsRead
  unfolding read_state
  read_state-IsRead =
      >>=-IfOk _ _ (review_time c.reviewed_at) _ (IfOk_self (review_time c.reviewed_at))
        λ reviewed read_at. after-IfOk _ (bind_proposal l c.proposal_id reviewed r) _ λ binding.
          >>=-IfOk _ _ (find_gate l c.proposal_id reviewed r) _
            (find_gate-Behind l c.proposal_id reviewed r)
            λ gate behind.
              >>=-IfOk _ _ (portfolio_behind env gate l c reviewed r valuations) _
                (portfolio_behind-read reviewed gate)
                λ portfolio p. record {
                  reviewed = reviewed;
                  read_at = read_at;
                  behind = behind;
                  portfolio = p;
                }
