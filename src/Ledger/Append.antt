-- ===== src/Ledger/Append.antt =====
-- The append operations of paper_trading/ledger.py up to the order, with the constraints and
-- triggers of paper_trading/migrations/001_autonomous_paper_trading_ledgers.sql. An operation that
-- fails is rolled back: the caller keeps the ledger it had. `julianday` is SQLite's, in whole
-- milliseconds, and `none` for a text that the schema's checks of a time refuse.
use Prim.Native.String.{◌++◌ as str_append}
use kronos_stock.Common.{
  ℕ, String, [], ◌∷◌, ◌++◌, Bool, true, false, not, ◌&&◌, ◌||◌, ◌==◌, Option, none, some, Result,
  ok, err, raise_if, or_raise, ◌>>=◌, ◌>>◌, if◌then◌else◌, any, str_eq, ltb,
}
use kronos_stock.Common.Int.{pos}
use kronos_stock.Common.Time.{Timestamp, explicit_kst}
use kronos_stock.Symbols.{Side, buy, sell, Action, enter, reduce, exit}
use kronos_stock.Ledger.Records.{
  decision_reason_codes, risk_reject_reason_codes, kill_switch_reason_codes,
  account_event_reason_codes, Account, AccountEvent, account_created, AgentDecision, OrderProposal,
  rejected_review, RiskReview, PaperOrder, OrderEvent, accepted, cancelled, expired, CashEvent,
  initial_deposit, KillSwitchEvent, Ledger,
}
use kronos_stock.Ledger.Same.{
  same_account, same_account_event, same_decision, same_proposal, same_review, same_order,
  same_order_event, same_kill_switch_event, same_side,
}
use kronos_stock.Ledger.Checks.{
  LedgerError, bad_int, bad_choice, bad_shape, unknown_row, binding_mismatch, not_approved, aborted,
  require_tz_iso, require_kst_iso, require_int, require_sha256, require_choice, fetch_row,
  is_replay, guard_idempotency_key, has_value, next_seq, is_ended,
}

abbrev pub Appended : Type 0
Appended = Result LedgerError Ledger

-- `if self._is_replay(...): return ...`
abbrev pub unless_replayed : Result LedgerError Bool → Ledger → Appended → Appended
unless_replayed replayed l insert = do seen ← replayed; if seen then ok l else insert

abbrev is_null : {A : Type 0} → Option A → Bool
is_null none = true
is_null (some a) = false

-- The text ends in "+09:00".
ends_kst : Timestamp → Bool
unfolding explicit_kst
ends_kst t = not (is_null (explicit_kst t.reading))

-- The deposit that the trigger of `paper_accounts` emits.
abbrev pub deposit_of : Account → CashEvent
deposit_of a = record {
  cash_event_id = str_append a.account_id ":cash:initial";
  account_id = a.account_id;
  fill_id = none;
  event_type = initial_deposit;
  amount_krw = pos a.initial_cash_krw;
  event_at = a.created_at;
}

-- The event that the trigger of `paper_accounts` emits.
abbrev pub creation_of : Account → AccountEvent
creation_of a = record {
  account_event_id = str_append a.account_id ":evt:1";
  account_id = a.account_id;
  seq = 1;
  event_type = account_created;
  reason_code = some "INITIAL";
  event_at = a.created_at;
}

-- `expected`: the side and the target that an action asks for
unfoldable pub is_bound : Action → Side → ℕ → Bool
is_bound action side target = elim action [
  | enter ↦ same_side side buy && ltb 0 target
  | reduce ↦ same_side side sell && ltb 0 target
  | exit ↦ same_side side sell && target == 0
  | _ ↦ false
]

-- The shape of a verdict.
unfoldable pub check_verdict : RiskReview → Result LedgerError (Unit {0})
unfolding require_choice require_int
check_verdict row = elim row.verdict [
  | rejected_review ↦ (elim row.reject_reason_code [
    | none ↦ err bad_shape
    | some code ↦ do
      raise_if (not (is_null row.approved_quantity)) bad_shape
      require_choice code risk_reject_reason_codes
      raise_if (not (is_null row.reference_price_krw)) bad_shape
  ])
  | _ ↦ do
    raise_if (not (is_null row.reject_reason_code)) bad_shape
    elim row.approved_quantity [ none ↦ err bad_int | some n ↦ require_int n 1 ]
    elim row.reference_price_krw [ none ↦ err bad_int | some n ↦ require_int n 1 ]
]

-- The event that the trigger of `paper_orders` emits.
abbrev pub acceptance_of : PaperOrder → OrderEvent
acceptance_of o = record {
  order_event_id = str_append o.order_id ":evt:1";
  order_id = o.order_id;
  seq = 1;
  event_type = accepted;
  event_at = o.created_at;
}

-- The quantity of a review that approves.
unfoldable pub approved_of : RiskReview → Result LedgerError ℕ
approved_of r = elim r.verdict [
  | rejected_review ↦ err not_approved
  | _ ↦ or_raise r.approved_quantity aborted
]

module _ (julianday : Timestamp → Option ℕ) where
  abbrev pub unread : Timestamp → Bool
  unread t = is_null (julianday t)

  -- `julianday(a) < julianday(b)`
  unfoldable pub precedes : Timestamp → Timestamp → Bool
  precedes a b = elim (julianday a) [
    | none ↦ false
    | some m ↦ elim (julianday b) [ none ↦ false | some n ↦ ltb m n ]
  ]

  unfoldable pub precedes_row : {A : Type 0} → Timestamp → (A → Timestamp) → Option A → Bool
  unfolding precedes
  precedes_row t column none = false
  precedes_row t column (some r) = precedes t (column r)

  -- The row of `paper_account_events`, by its constraints and its trigger on times.
  unfoldable pub insert_account_event : AccountEvent → Ledger → Appended
  unfolding ends_kst precedes precedes_row fetch_row
  insert_account_event row l = do
    raise_if
        (has_value (λ e. e.account_event_id) row.account_event_id l.account_events
          || not (has_value (λ a. a.account_id) row.account_id l.accounts)
          || unread row.event_at)
        aborted
    raise_if
        (not (
          if row.seq == 1
          then elim row.event_type [ account_created ↦ true | _ ↦ false ]
          else elim row.event_type [ account_created ↦ false | _ ↦ true ]))
        aborted
    raise_if
        (not (ends_kst row.event_at)
          || precedes_row row.event_at (λ a. a.created_at)
              (fetch_row (λ a. a.account_id) row.account_id l.accounts)
          || any (λ e. str_eq e.account_id row.account_id && precedes row.event_at e.event_at)
              l.account_events)
        aborted
    ok (record l { account_events = l.account_events ++ (row ∷ []) })

  -- `create_account`
  unfoldable pub create_account : Account → Ledger → Appended
  unfolding is_replay insert_account_event require_tz_iso require_int
  create_account row l = do
    created ← require_tz_iso row.created_at
    require_int row.initial_cash_krw 1
    unless_replayed (is_replay (λ a. a.account_id) same_account row l.accounts) l (do
      raise_if (str_eq row.policy_version "" || unread row.created_at) aborted
      opened ←
          insert_account_event (creation_of row) (record l { accounts = l.accounts ++ (row ∷ []) })
      ok (record opened { cash_events = opened.cash_events ++ (deposit_of row ∷ []) }))

  -- `append_account_event`; the row's `seq` is assigned here.
  unfoldable pub append_account_event : AccountEvent → Ledger → Appended
  unfolding is_replay insert_account_event next_seq require_choice require_kst_iso
  append_account_event row l = do
    raise_if (elim row.event_type [ account_created ↦ true | _ ↦ false ]) bad_choice
    at ← require_kst_iso row.event_at
    elim row.reason_code [
      | none ↦ ok tt
      | some code ↦ require_choice code account_event_reason_codes
    ]
    unless_replayed (is_replay (λ e. e.account_event_id) same_account_event row l.account_events) l
        (insert_account_event
          (record row {
            seq = next_seq (λ e. e.account_id) (λ e. e.seq) row.account_id l.account_events;
          })
          l)

  -- `append_agent_decision`
  unfoldable pub append_agent_decision : AgentDecision → Ledger → Appended
  unfolding is_replay precedes require_choice require_tz_iso require_sha256
  append_agent_decision row l = do
    require_choice row.reason_code decision_reason_codes
    require_sha256 row.feature_snapshot_sha256
    cutoff ← require_tz_iso row.available_data_cutoff
    require_sha256 row.rationale_sha256
    created ← require_tz_iso row.created_at
    raise_if (ltb created.instant cutoff.instant) bad_shape
    unless_replayed (is_replay (λ d. d.decision_id) same_decision row l.decisions) l (do
      raise_if
          (not (has_value (λ a. a.account_id) row.account_id l.accounts)
            || str_eq row.ksf_run_id ""
            || str_eq row.ksf_decision_id ""
            || unread row.available_data_cutoff
            || unread row.created_at
            || precedes row.created_at row.available_data_cutoff
            || any
                (λ d.
                  str_eq d.account_id row.account_id
                  && str_eq d.ksf_decision_id row.ksf_decision_id)
                l.decisions)
          aborted
      ok (record l { decisions = l.decisions ++ (row ∷ []) }))

  -- `append_order_proposal`: account and symbol are the decision's.
  unfoldable pub append_order_proposal :
      String → String → Side → ℕ → String → String → String → Timestamp → Ledger → Appended
  unfolding is_replay fetch_row guard_idempotency_key is_bound precedes require_tz_iso
  append_order_proposal proposal_id decision_id side target idempotency_key model_name model_version
        proposed_at l =
      do
        raise_if (ltb 10_000 target) bad_int
        decision ← or_raise (fetch_row (λ d. d.decision_id) decision_id l.decisions) unknown_row
        raise_if (not (is_bound decision.action side target)) binding_mismatch
        proposed ← require_tz_iso proposed_at
        let row : OrderProposal = record {
          proposal_id = proposal_id;
          decision_id = decision_id;
          account_id = decision.account_id;
          symbol = decision.symbol;
          side = side;
          target_exposure_bp = target;
          idempotency_key = idempotency_key;
          model_name = model_name;
          model_version = model_version;
          proposed_at = proposed_at;
        }
        unless_replayed (is_replay (λ p. p.proposal_id) same_proposal row l.proposals) l (do
          guard_idempotency_key (λ p. p.proposal_id) (λ p. p.idempotency_key) row l.proposals
          raise_if
              (has_value (λ p. p.decision_id) decision_id l.proposals
                || str_eq idempotency_key ""
                || str_eq model_name ""
                || str_eq model_version ""
                || unread proposed_at
                || precedes proposed_at decision.created_at)
              aborted
          ok (record l { proposals = l.proposals ++ (row ∷ []) }))

  -- `append_risk_review`
  unfoldable pub append_risk_review : RiskReview → Ledger → Appended
  unfolding is_replay fetch_row check_verdict precedes_row require_sha256 require_tz_iso
  append_risk_review row l = do
    check_verdict row
    require_sha256 row.policy_sha256
    reviewed ← require_tz_iso row.reviewed_at
    unless_replayed (is_replay (λ r. r.review_id) same_review row l.reviews) l (do
      raise_if
          (not (has_value (λ p. p.proposal_id) row.proposal_id l.proposals)
            || has_value (λ r. r.proposal_id) row.proposal_id l.reviews
            || unread row.reviewed_at
            || precedes_row row.reviewed_at (λ p. p.proposed_at)
                (fetch_row (λ p. p.proposal_id) row.proposal_id l.proposals))
          aborted
      ok (record l { reviews = l.reviews ++ (row ∷ []) }))

  -- The row of `paper_order_events`, by its constraints and triggers; a FILLED event comes from the
  -- trigger of a fill only.
  unfoldable pub insert_order_event : OrderEvent → Ledger → Appended
  unfolding precedes precedes_row is_ended fetch_row
  insert_order_event row l = do
    raise_if
        (has_value (λ e. e.order_event_id) row.order_event_id l.order_events
          || not (has_value (λ o. o.order_id) row.order_id l.orders)
          || unread row.event_at)
        aborted
    raise_if
        (not (
          if row.seq == 1
          then elim row.event_type [ accepted ↦ true | _ ↦ false ]
          else elim row.event_type [ accepted ↦ false | _ ↦ true ]))
        aborted
    raise_if (is_ended row.order_id l.order_events) aborted
    raise_if
        (precedes_row row.event_at (λ o. o.created_at)
            (fetch_row (λ o. o.order_id) row.order_id l.orders)
          || any (λ e. str_eq e.order_id row.order_id && precedes row.event_at e.event_at)
              l.order_events)
        aborted
    ok (record l { order_events = l.order_events ++ (row ∷ []) })

  -- `append_order`: proposal, account, symbol, side and quantity are those of the review.
  unfoldable pub append_order : String → String → String → Timestamp → Ledger → Appended
  unfolding is_replay fetch_row guard_idempotency_key approved_of insert_order_event precedes
      require_tz_iso
  append_order order_id review_id idempotency_key created_at l = do
    created ← require_tz_iso created_at
    review ← or_raise (fetch_row (λ r. r.review_id) review_id l.reviews) unknown_row
    proposal ← or_raise (fetch_row (λ p. p.proposal_id) review.proposal_id l.proposals) unknown_row
    quantity ← approved_of review
    let row : PaperOrder = record {
      order_id = order_id;
      review_id = review_id;
      proposal_id = proposal.proposal_id;
      account_id = proposal.account_id;
      symbol = proposal.symbol;
      side = proposal.side;
      quantity = quantity;
      idempotency_key = idempotency_key;
      created_at = created_at;
    }
    unless_replayed (is_replay (λ o. o.order_id) same_order row l.orders) l (do
      guard_idempotency_key (λ o. o.order_id) (λ o. o.idempotency_key) row l.orders
      raise_if
          (has_value (λ o. o.review_id) review_id l.orders
            || has_value (λ o. o.proposal_id) row.proposal_id l.orders
            || str_eq idempotency_key ""
            || unread created_at
            || precedes created_at review.reviewed_at)
          aborted
      insert_order_event (acceptance_of row) (record l { orders = l.orders ++ (row ∷ []) }))

  -- `append_order_event`; the row's `seq` is assigned here.
  unfoldable pub append_order_event : OrderEvent → Ledger → Appended
  unfolding is_replay insert_order_event next_seq require_tz_iso
  append_order_event row l = do
    raise_if (elim row.event_type [ cancelled ↦ false | expired ↦ false | _ ↦ true ]) bad_choice
    at ← require_tz_iso row.event_at
    unless_replayed (is_replay (λ e. e.order_event_id) same_order_event row l.order_events) l (
        insert_order_event
          (record row { seq = next_seq (λ e. e.order_id) (λ e. e.seq) row.order_id l.order_events })
          l)

  -- `append_kill_switch_event`; the row's `seq` is assigned here.
  unfoldable pub append_kill_switch_event : KillSwitchEvent → Ledger → Appended
  unfolding is_replay fetch_row next_seq precedes precedes_row ends_kst require_choice
      require_kst_iso
  append_kill_switch_event row l = do
    require_choice row.reason_code kill_switch_reason_codes
    at ← require_kst_iso row.event_at
    unless_replayed
        (is_replay (λ e. e.kill_switch_event_id) same_kill_switch_event row l.kill_switch_events) l
        (do
          raise_if
              (not (has_value (λ a. a.account_id) row.account_id l.accounts)
                || unread row.event_at
                || not (ends_kst row.event_at)
                || precedes_row row.event_at (λ a. a.created_at)
                    (fetch_row (λ a. a.account_id) row.account_id l.accounts)
                || any (λ e. str_eq e.account_id row.account_id && precedes row.event_at e.event_at)
                    l.kill_switch_events)
              aborted
          let numbered : KillSwitchEvent = record row {
            seq = next_seq (λ e. e.account_id) (λ e. e.seq) row.account_id l.kill_switch_events;
          }
          ok (record l { kill_switch_events = l.kill_switch_events ++ (numbered ∷ []) }))
