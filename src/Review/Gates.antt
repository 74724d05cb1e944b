-- ===== src/Review/Gates.antt =====
-- The gates of `review_and_persist` (strategy/paper_risk.py): the account's events, the kill switch, and
-- an approval of the same symbol in the same session.
use kronos_stock.Common.{
  ℕ, ◌+◌, String, List, [], ◌∷◌, Bool, true, false, not, ◌&&◌, ◌||◌, ◌==◌, Option, none, some,
  Result, ok, raise_if, ◌>>=◌, ◌>>◌, if◌then◌else◌, str_eq, ltb, leb, filter,
}
use kronos_stock.Common.Time.{Moment, Timestamp}
use kronos_stock.Common.Sorting.{sort_by}
use kronos_stock.Symbols.{same_symbol}
use kronos_stock.Risk.Records.{RiskInput}
use kronos_stock.Ledger.Records.{
  Ledger, AccountEventType, account_enabled, KillSwitchEventType, released, OrderProposal,
  AgentDecision, RiskReview,
}
use kronos_stock.Ledger.Checks.{fetch_row}
use kronos_stock.Review.Records.{
  ReviewError, inconsistent, Gate, account_disabled, kill_engaged, duplicated, open_gate, accepts,
  review_time, row_time,
}

module _ {A : Type 0} (seq_of : A → ℕ) (time_of : A → Timestamp) where
  -- The loop of `authoritative_state_as_of`, from an expected `seq`, the time before and the event
  -- selected so far.
  unfoldable pub state_from :
      Moment → ℕ → Option Moment → Option A → List A → Result ReviewError (Option A)
  unfolding row_time
  state_from reviewed expected previous selected [] = ok selected
  state_from reviewed expected previous selected (e ∷ es) = do
    time ← row_time (time_of e)
    raise_if
        (not (seq_of e == expected)
          || elim previous [ none ↦ false | some t ↦ ltb time.instant t.instant ])
        inconsistent
    state_from reviewed (expected + 1) (some time)
        (if leb time.instant reviewed.instant then some e else selected) es

  -- `authoritative_state_as_of`, of the account's rows
  unfoldable pub state_as_of : Moment → List A → Result ReviewError (Option A)
  unfolding sort_by state_from
  state_as_of reviewed rows =
      state_from reviewed 1 none none (sort_by (λ a b. ltb (seq_of a) (seq_of b)) rows)

-- The events of the account.
unfoldable pub account_state :
    Ledger → String → Moment → Result ReviewError (Option AccountEventType)
unfolding state_as_of
account_state l account_id reviewed = do
  e ←
      state_as_of (λ e. e.seq) (λ e. e.event_at) reviewed
        (filter (λ e. str_eq e.account_id account_id) l.account_events)
  ok (elim e [ none ↦ none | some x ↦ some x.event_type ])

unfoldable pub kill_switch_state :
    Ledger → String → Moment → Result ReviewError (Option KillSwitchEventType)
unfolding state_as_of
kill_switch_state l account_id reviewed = do
  e ←
      state_as_of (λ e. e.seq) (λ e. e.event_at) reviewed
        (filter (λ e. str_eq e.account_id account_id) l.kill_switch_events)
  ok (elim e [ none ↦ none | some x ↦ some x.event_type ])

abbrev pub is_enabled : Option AccountEventType → Bool
is_enabled (some account_enabled) = true
is_enabled e = false

abbrev pub is_released : Option KillSwitchEventType → Bool
is_released (some released) = true
is_released e = false

-- A review with its proposal and its decision, as the query joins them.
pub record Joined : Type 0 where
  pub review : RiskReview
  pub proposal : OrderProposal
  pub decision : AgentDecision

unfoldable pub join_review : Ledger → RiskReview → Option Joined
unfolding fetch_row
join_review l r = elim (fetch_row (λ p. p.proposal_id) r.proposal_id l.proposals) [
  | none ↦ none
  | some p ↦ elim (fetch_row (λ d. d.decision_id) p.decision_id l.decisions) [
    | none ↦ none
    | some d ↦ some (record { review = r; proposal = p; decision = d })
  ]
]

-- The accepted reviews of the account for other proposals.
unfoldable pub accepted_others : Ledger → String → String → List RiskReview → List Joined
unfolding join_review
accepted_others l account_id proposal_id [] = []
accepted_others l account_id proposal_id (r ∷ rs) =
    let rest = accepted_others l account_id proposal_id rs in
    if accepts r.verdict && not (str_eq r.proposal_id proposal_id)
    then elim (join_review l r) [
      | none ↦ rest
      | some j ↦ if str_eq j.proposal.account_id account_id then j ∷ rest else rest
    ]
    else rest

-- The loop that looks for a decision of the session.
unfoldable pub is_duplicate : String → List Joined → Result ReviewError Bool
unfolding review_time
is_duplicate session_id [] = ok false
is_duplicate session_id (j ∷ js) = do
  time ← review_time j.decision.created_at
  let rest = is_duplicate session_id js
  if str_eq time.date session_id then ok true else rest

module _ {V : Type 0} (l : Ledger) (proposal_id : String) (reviewed : Moment)
    (r : RiskInput V) where
  -- Whether another approval of the symbol belongs to the session.
  unfoldable pub duplicate_gate : Result ReviewError Gate
  unfolding accepted_others is_duplicate
  duplicate_gate = do
    duplicate ← is_duplicate r.session_id (
        filter (λ j. same_symbol j.proposal.symbol r.symbol)
          (accepted_others l r.account_id proposal_id l.reviews))
    ok (if duplicate then duplicated else open_gate)

  unfoldable pub kill_gate : Result ReviewError Gate
  unfolding kill_switch_state duplicate_gate
  kill_gate = kill_switch_state l r.account_id reviewed >>= λ kill.
      if is_released kill then duplicate_gate else ok (kill_engaged kill)

  -- The stage that the review reaches.
  unfoldable pub find_gate : Result ReviewError Gate
  unfolding account_state kill_gate
  find_gate = account_state l r.account_id reviewed >>= λ account.
      if is_enabled account then kill_gate else ok (account_disabled account)
