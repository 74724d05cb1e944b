-- ===== src/Ledger/Nav.antt =====
-- The derived state at a time, and `append_nav_snapshot` of paper_trading/ledger.py.
use kronos_stock.Common.{
  ℕ, String, List, [], ◌∷◌, ◌++◌, Bool, true, false, not, ◌&&◌, ◌||◌, Option, none, some, Result,
  ok, raise_if, or_raise, ◌>>=◌, ◌>>◌, if◌then◌else◌, str_eq, ltb, leb,
}
use kronos_stock.Common.Int.{ℤ, pos, ◌+ℤ◌, scale, ltb_ℤ}
use kronos_stock.Common.Time.{Moment, Timestamp, aware, nine_hours, explicit_kst, str_lt}
use kronos_stock.Symbols.{PerSymbol, Symbol, s005930, s000660, same_symbol}
use kronos_stock.Ledger.Records.{CashEvent, PositionEvent, Mark, NavSnapshot, Ledger}
use kronos_stock.Ledger.Same.{same_int, same_nav_snapshot}
use kronos_stock.Ledger.Checks.{
  LedgerError, bad_time, bad_int, bad_shape, aborted, require_tz_iso, require_int, require_sha256,
  is_replay, has_value,
}
use kronos_stock.Ledger.Append.{Appended, unless_replayed, unread, precedes}

-- The loop of `cash_balance_as_of`.
unfoldable pub cash_until : Moment → String → List CashEvent → Result LedgerError ℤ
cash_until cutoff account_id [] = ok (pos 0)
cash_until cutoff account_id (e ∷ es) =
    let rest = cash_until cutoff account_id es in
    if str_eq e.account_id account_id
    then (do
      event_time ← or_raise (aware e.event_at.reading) bad_time
      total ← rest
      ok (if leb event_time.instant cutoff.instant then e.amount_krw +ℤ total else total))
    else rest

-- `cash_balance_as_of`
unfoldable pub cash_balance_as_of : Ledger → String → Timestamp → Result LedgerError ℤ
unfolding require_tz_iso cash_until
cash_balance_as_of l account_id as_of = do
  cutoff ← require_tz_iso as_of
  cash_until cutoff account_id l.cash_events

-- The loop of `positions_as_of`, for a symbol.
unfoldable pub shares_until : Moment → String → Symbol → List PositionEvent → Result LedgerError ℤ
shares_until cutoff account_id symbol [] = ok (pos 0)
shares_until cutoff account_id symbol (e ∷ es) =
    let rest = shares_until cutoff account_id symbol es in
    if str_eq e.account_id account_id
    then (do
      event_time ← or_raise (aware e.event_at.reading) bad_time
      total ← rest
      ok (
          if leb event_time.instant cutoff.instant && same_symbol e.symbol symbol
          then e.quantity_delta +ℤ total
          else total))
    else rest

-- `positions_as_of`: a symbol that the dictionary leaves out has 0 here.
unfoldable pub positions_as_of : Ledger → String → Timestamp → Result LedgerError (PerSymbol ℤ)
unfolding require_tz_iso shares_until
positions_as_of l account_id as_of = do
  cutoff ← require_tz_iso as_of
  a ← shares_until cutoff account_id s005930 l.position_events
  b ← shares_until cutoff account_id s000660 l.position_events
  raise_if (ltb_ℤ a (pos 0) || ltb_ℤ b (pos 0)) bad_shape
  ok (record { at_005930 = a; at_000660 = b })

-- `latest_nav`
unfoldable pub nav_before : NavSnapshot → NavSnapshot → Bool
nav_before a b =
    str_lt a.session_date b.session_date
    || (str_eq a.session_date b.session_date
        && (str_lt a.snapshot_at.text b.snapshot_at.text
            || (str_eq a.snapshot_at.text b.snapshot_at.text
                && str_lt a.nav_snapshot_id b.nav_snapshot_id)))

unfoldable pub latest_nav : String → List NavSnapshot → Option NavSnapshot
unfolding nav_before
latest_nav account_id [] = none
latest_nav account_id (n ∷ ns) =
    let rest = latest_nav account_id ns in
    if str_eq n.account_id account_id
    then elim rest [ none ↦ some n | some m ↦ if nav_before m n then some n else some m ]
    else rest

-- The checks of a mark: quantity, price, time and digest.
unfoldable pub check_mark : Option Mark → Result LedgerError (Unit {0})
unfolding require_int require_tz_iso require_sha256
check_mark none = ok tt
check_mark (some m) = do
  raise_if (ltb_ℤ m.quantity (pos 1)) bad_int
  require_int m.price_krw 1
  seen ← require_tz_iso m.observed_at
  observed ← or_raise (nine_hours m.observed_at.reading) bad_time
  require_sha256 m.feature_snapshot_sha256

-- The mark was observed after the snapshot.
unfoldable pub late_mark : Moment → Option Mark → Bool
late_mark snapshot_time none = false
late_mark snapshot_time (some m) = elim (aware m.observed_at.reading) [
  | none ↦ false
  | some observed ↦ ltb snapshot_time.instant observed.instant
]

-- A mark is there exactly for a position that is not 0, and has its quantity.
unfoldable pub marks_position : Option Mark → ℤ → Bool
marks_position none quantity = same_int quantity (pos 0)
marks_position (some m) quantity = same_int m.quantity quantity

unfoldable pub mark_value : Option Mark → ℤ
mark_value none = pos 0
mark_value (some m) = scale m.quantity m.price_krw

-- `marked_value`
unfoldable pub marked_value : PerSymbol (Option Mark) → ℤ
unfolding mark_value
marked_value marks = mark_value marks.at_005930 +ℤ mark_value marks.at_000660

module _ (julianday : Timestamp → Option ℕ) where
  -- What the trigger of `paper_nav_snapshots` refuses of a mark beyond the checks before.
  unfoldable pub refused_mark : Timestamp → Option Mark → Bool
  unfolding precedes explicit_kst
  refused_mark snapshot_at none = false
  refused_mark snapshot_at (some m) =
      unread julianday m.observed_at
      || elim (explicit_kst m.observed_at.reading) [ none ↦ true | some t ↦ false ]
      || precedes julianday snapshot_at m.observed_at

  -- `append_nav_snapshot`
  unfoldable pub append_nav_snapshot : NavSnapshot → Ledger → Appended
  unfolding is_replay require_tz_iso check_mark late_mark positions_as_of marks_position
      marked_value cash_balance_as_of refused_mark
  append_nav_snapshot row l = do
    raise_if (ltb_ℤ row.cash_krw (pos 0) || ltb_ℤ row.position_value_krw (pos 0)) bad_int
    raise_if (not (same_int row.nav_krw (row.cash_krw +ℤ row.position_value_krw))) bad_shape
    check_mark row.position_marks.at_005930
    check_mark row.position_marks.at_000660
    snapshot_read ← require_tz_iso row.snapshot_at
    snapshot_time ← or_raise (nine_hours row.snapshot_at.reading) bad_time
    raise_if (not (str_eq snapshot_time.date row.session_date)) bad_time
    raise_if
        (late_mark snapshot_time row.position_marks.at_005930
          || late_mark snapshot_time row.position_marks.at_000660)
        bad_time
    positions ← positions_as_of l row.account_id row.snapshot_at
    raise_if
        (not (marks_position row.position_marks.at_005930 positions.at_005930)
          || not (marks_position row.position_marks.at_000660 positions.at_000660))
        bad_shape
    raise_if (not (same_int (marked_value row.position_marks) row.position_value_krw)) bad_shape
    cash ← cash_balance_as_of l row.account_id row.snapshot_at
    raise_if (not (same_int cash row.cash_krw)) bad_shape
    unless_replayed (is_replay (λ n. n.nav_snapshot_id) same_nav_snapshot row l.nav_snapshots) l (do
      raise_if
          (not (has_value (λ a. a.account_id) row.account_id l.accounts)
            || unread julianday row.snapshot_at
            || refused_mark row.snapshot_at row.position_marks.at_005930
            || refused_mark row.snapshot_at row.position_marks.at_000660)
          aborted
      ok (record l { nav_snapshots = l.nav_snapshots ++ (row ∷ []) }))
