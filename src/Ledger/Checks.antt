-- ===== src/Ledger/Checks.antt =====
-- The checks that the operations of paper_trading/ledger.py share: the `_require_*` functions,
-- `_fetch_row`, `_is_replay`, `_guard_idempotency_key` and `_next_seq`, and the derived state that
-- the operations read.
use kronos_stock.Common.{
  ℕ, ◌+◌, String, List, [], ◌∷◌, Bool, true, false, not, ◌&&◌, Option, none, some, Result, ok,
  raise_if, or_raise, ◌>>◌, if◌then◌else◌, any, str_eq, max, ltb,
}
use kronos_stock.Common.Int.{ℤ, pos, sum_ℤ}
use kronos_stock.Common.Time.{Moment, Timestamp, aware, explicit_kst, is_sha256}
use kronos_stock.Common.Text.{one_of}
use kronos_stock.Symbols.{Symbol, same_symbol}
use kronos_stock.Ledger.Records.{
  OrderEvent, OrderEventType, accepted, Ledger, account_enabled, engaged,
}

-- `LedgerError` by its kinds, `LedgerConflictError` as `conflict`, and `aborted` for a constraint or
-- a trigger of the schema.
pub data LedgerError : Type 0 where
  bad_time bad_int bad_sha bad_choice bad_shape unknown_row binding_mismatch : LedgerError
  not_approved partial_fill conflict aborted : LedgerError

-- `_require_tz_iso`
unfoldable pub require_tz_iso : Timestamp → Result LedgerError Moment
require_tz_iso t = or_raise (aware t.reading) bad_time

-- `_require_kst_iso`
unfoldable pub require_kst_iso : Timestamp → Result LedgerError Moment
require_kst_iso t = or_raise (explicit_kst t.reading) bad_time

-- `_require_int`, with a minimum
unfoldable pub require_int : ℕ → ℕ → Result LedgerError (Unit {0})
require_int value minimum = raise_if (ltb value minimum) bad_int

-- `_require_sha256`
unfoldable pub require_sha256 : String → Result LedgerError (Unit {0})
require_sha256 s = raise_if (not (is_sha256 s)) bad_sha

-- `_require_choice`
unfoldable pub require_choice : String → List String → Result LedgerError (Unit {0})
require_choice value allowed = raise_if (not (one_of value allowed)) bad_choice

module _ {A : Type 0} where
  -- `_fetch_row`: `key` is the value of a unique column.
  unfoldable pub fetch_row : (A → String) → String → List A → Option A
  fetch_row column key [] = none
  fetch_row column key (x ∷ xs) =
      let rest = fetch_row column key xs in if str_eq (column x) key then some x else rest

  -- `_is_replay`
  unfoldable pub is_replay : (A → String) → (A → A → Bool) → A → List A → Result LedgerError Bool
  unfolding fetch_row
  is_replay column same row rows = elim (fetch_row column (column row) rows) [
    | none ↦ ok false
    | some existing ↦ do raise_if (not (same existing row)) conflict; ok true
  ]

  -- `_guard_idempotency_key`
  unfoldable pub guard_idempotency_key :
      (A → String) → (A → String) → A → List A → Result LedgerError (Unit {0})
  unfolding fetch_row
  guard_idempotency_key column idempotency row rows =
      elim (fetch_row idempotency (idempotency row) rows) [
        | none ↦ ok tt
        | some existing ↦ raise_if (not (str_eq (column existing) (column row))) conflict
      ]

  -- Some row has the value in the column.
  abbrev pub has_value : (A → String) → String → List A → Bool
  has_value column key rows = any (λ r. str_eq (column r) key) rows

  -- `_next_seq`
  unfoldable pub next_seq : (A → String) → (A → ℕ) → String → List A → ℕ
  next_seq column seq key [] = 1
  next_seq column seq key (x ∷ xs) =
      let rest = next_seq column seq key xs in
      if str_eq (column x) key then max (seq x + 1) rest else rest

  -- `WHERE column = key ORDER BY seq DESC LIMIT 1`
  unfoldable pub latest_row : (A → String) → (A → ℕ) → String → List A → Option A
  latest_row column seq key [] = none
  latest_row column seq key (x ∷ xs) =
      let rest = latest_row column seq key xs in
      if str_eq (column x) key
      then elim rest [ none ↦ some x | some y ↦ if ltb (seq y) (seq x) then some x else some y ]
      else rest

abbrev pub is_terminal : OrderEventType → Bool
is_terminal accepted = false
is_terminal _ = true

-- Some event that ends the order is in the ledger.
unfoldable pub is_ended : String → List OrderEvent → Bool
is_ended order_id events = any (λ e. str_eq e.order_id order_id && is_terminal e.event_type) events

-- `cash_balance`
unfoldable pub cash_balance : Ledger → String → ℤ
cash_balance l account_id =
    sum_ℤ (λ e. if str_eq e.account_id account_id then e.amount_krw else pos 0) l.cash_events

-- What `positions` sums for a symbol; `positions` leaves out a sum of 0.
unfoldable pub position : Ledger → String → Symbol → ℤ
position l account_id symbol =
    sum_ℤ
      (λ e.
        if str_eq e.account_id account_id && same_symbol e.symbol symbol
        then e.quantity_delta
        else pos 0)
      l.position_events

-- `order_state`
unfoldable pub order_state : Ledger → String → Option OrderEventType
unfolding latest_row
order_state l order_id = elim (latest_row (λ e. e.order_id) (λ e. e.seq) order_id l.order_events) [
  | none ↦ none
  | some e ↦ some e.event_type
]

-- `kill_switch_engaged`: it is engaged unless an event says otherwise.
unfoldable pub kill_switch_engaged : Ledger → String → Bool
unfolding latest_row
kill_switch_engaged l account_id =
    elim (latest_row (λ e. e.account_id) (λ e. e.seq) account_id l.kill_switch_events) [
      | none ↦ true
      | some e ↦ elim e.event_type [ engaged ↦ true | _ ↦ false ]
    ]

-- `account_enabled`
unfoldable pub is_account_enabled : Ledger → String → Bool
unfolding latest_row
is_account_enabled l account_id =
    elim (latest_row (λ e. e.account_id) (λ e. e.seq) account_id l.account_events) [
      | none ↦ false
      | some e ↦ elim e.event_type [ account_enabled ↦ true | _ ↦ false ]
    ]
