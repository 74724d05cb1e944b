-- ===== src/Review/Navs.antt =====
-- The snapshots of value that `review_and_persist` (strategy/paper_risk.py) reads: the current one with
-- its marks and the payloads that value them, and the account's history. Dictionaries by symbol are
-- pairs; a symbol that a dictionary of shares leaves out has 0.
use kronos_stock.Common.{
  String, List, [], ◌∷◌, Bool, false, not, ◌&&◌, ◌||◌, Option, none, some, Result, ok, err,
  raise_if, or_raise, ◌>>=◌, ◌>>◌, if◌then◌else◌, str_eq, ltb, leb, filter, map,
}
use kronos_stock.Common.Int.{ℤ, pos, ◌+ℤ◌, ltb_ℤ, max_ℤ}
use kronos_stock.Common.Time.{Moment, Timestamp, is_sha256, str_lt}
use kronos_stock.Common.Sorting.{sort_by}
use kronos_stock.Symbols.{PerSymbol, get, Symbol, s005930, s000660, same_symbol}
use kronos_stock.Features.Records.{group_order, SymbolFeatureOutput}
use kronos_stock.Features.Eligibility.{rows_of}
use kronos_stock.Risk.Records.{RiskInput}
use kronos_stock.Ledger.Records.{Ledger, Mark, NavSnapshot}
use kronos_stock.Ledger.Same.{same_int}
use kronos_stock.Ledger.Nav.{cash_balance_as_of, positions_as_of, mark_value}
use kronos_stock.Review.Records.{
  ReviewError, bad_digest, inconsistent, not_a_number, Reviewing, review_time, or_inconsistent,
}

-- A mark of a holding, observed by the snapshot's time, with its value.
unfoldable pub check_mark : Moment → ℤ → Option Mark → Result ReviewError ℤ
unfolding review_time
check_mark snapshot_time holding none = do
  raise_if (not (same_int holding (pos 0))) inconsistent
  ok (pos 0)
check_mark snapshot_time holding (some m) = do
  raise_if (ltb_ℤ m.quantity (pos 1) || ltb m.price_krw 1) inconsistent
  raise_if (not (same_int m.quantity holding)) inconsistent
  raise_if (not (is_sha256 m.feature_snapshot_sha256)) bad_digest
  observed ← review_time m.observed_at
  raise_if (ltb snapshot_time.instant observed.instant) inconsistent
  ok (mark_value (some m))

-- The marks of the holdings, and their value.
unfoldable pub check_marks : Moment → PerSymbol ℤ → PerSymbol (Option Mark) → Result ReviewError ℤ
unfolding check_mark
check_marks snapshot_time holdings marks = do
  a ← check_mark snapshot_time holdings.at_005930 marks.at_005930
  b ← check_mark snapshot_time holdings.at_000660 marks.at_000660
  ok (a +ℤ b)

-- A snapshot that agrees with the events of its time.
pub record Checked : Type 0 where
  pub nav : NavSnapshot
  pub cash : ℤ
  pub holdings : PerSymbol ℤ

module _ {V : Type 0} (env : Reviewing V) where
  -- `ORDER BY snapshot_at, CASE WHEN ... THEN 1 ELSE 0 END, nav_snapshot_id`
  unfoldable pub nav_before : NavSnapshot → NavSnapshot → Bool
  nav_before a b =
      str_lt a.snapshot_at.text b.snapshot_at.text
      || (str_eq a.snapshot_at.text b.snapshot_at.text
          && ((not (env.is_cycle_nav a.nav_snapshot_id) && env.is_cycle_nav b.nav_snapshot_id)
              || ((if env.is_cycle_nav a.nav_snapshot_id
                    then env.is_cycle_nav b.nav_snapshot_id
                    else not (env.is_cycle_nav b.nav_snapshot_id))
                  && str_lt a.nav_snapshot_id b.nav_snapshot_id)))

  -- `julianday(snapshot_at)<=julianday(?)`
  abbrev not_after : Timestamp → Timestamp → Bool
  not_after a b = elim (env.julianday a) [
    | none ↦ false
    | some x ↦ elim (env.julianday b) [ none ↦ false | some y ↦ leb x y ]
  ]

  -- The last snapshot of the session by the review.
  unfoldable pub current_nav : String → String → Timestamp → List NavSnapshot → Option NavSnapshot
  unfolding nav_before
  current_nav account_id session_id reviewed_at [] = none
  current_nav account_id session_id reviewed_at (n ∷ ns) =
      let rest = current_nav account_id session_id reviewed_at ns in
      if str_eq n.account_id account_id
        && str_eq n.session_date session_id
        && not_after n.snapshot_at reviewed_at
      then elim rest [ none ↦ some n | some m ↦ if nav_before m n then some n else some m ]
      else rest

  -- The values of the features named "close".
  unfoldable pub close_values : SymbolFeatureOutput V → List (Option V)
  unfolding rows_of
  close_values o =
      map (λ f. f.value) (filter (λ f. str_eq f.name "close") (rows_of o.groups group_order))

  -- The one close of a snapshot, if it is a whole number.
  unfoldable pub canonical_close : SymbolFeatureOutput V → Option ℤ
  unfolding close_values
  canonical_close o = elim (close_values o) [ (some v ∷ []) ↦ env.whole v | _ ↦ none ]

  -- The request's price: `float` refuses a close that is `None`.
  unfoldable pub canonical_price : SymbolFeatureOutput V → Result ReviewError ℤ
  unfolding close_values
  canonical_price o = elim (close_values o) [
    | (none ∷ []) ↦ err not_a_number
    | (some v ∷ []) ↦ or_raise (env.whole v) inconsistent
    | _ ↦ err inconsistent
  ]

  -- The payload that values a symbol: the request's own, if the symbol is marked.
  unfoldable pub payload_of :
      RiskInput V
      → PerSymbol (Option (SymbolFeatureOutput V))
      → Symbol
      → Option Mark
      → Result ReviewError (Option (SymbolFeatureOutput V))
  payload_of r valuations s none = ok (get valuations s)
  payload_of r valuations s (some m) =
      if same_symbol s r.symbol
      then elim (get valuations s) [
        | none ↦ ok (some r.feature_snapshot)
        | some o ↦ err inconsistent
      ]
      else ok (get valuations s)

  -- A mark's payload: of the symbol, with the mark's digest, time and price.
  unfoldable pub check_payload :
      Symbol → Option Mark → Option (SymbolFeatureOutput V) → Result ReviewError (Unit {0})
  unfolding canonical_close review_time
  check_payload s none none = ok tt
  check_payload s none (some o) = err inconsistent
  check_payload s (some m) none = err inconsistent
  check_payload s (some m) (some o) = do
    raise_if (not (same_symbol o.symbol s)) inconsistent
    raise_if (not (str_eq (env.snapshot_digest o) m.feature_snapshot_sha256)) inconsistent
    cutoff ← review_time o.available_data_cutoff
    observed ← review_time m.observed_at
    raise_if (ltb cutoff.instant observed.instant || ltb observed.instant cutoff.instant)
        inconsistent
    close ← or_raise (canonical_close o) inconsistent
    raise_if (ltb_ℤ close (pos 1) || not (same_int close (pos m.price_krw))) inconsistent

  -- The payloads of all symbols.
  unfoldable pub check_payloads :
      RiskInput V
      → PerSymbol (Option (SymbolFeatureOutput V))
      → PerSymbol (Option Mark)
      → Result ReviewError (Unit {0})
  unfolding payload_of check_payload
  check_payloads r valuations marks = do
    a ← payload_of r valuations s005930 marks.at_005930
    b ← payload_of r valuations s000660 marks.at_000660
    check_payload s005930 marks.at_005930 a
    check_payload s000660 marks.at_000660 b

  -- The current snapshot: consistent with the events of its time and of the review, and marked.
  unfoldable pub read_current :
      Ledger
      → Timestamp
      → Moment
      → RiskInput V
      → PerSymbol (Option (SymbolFeatureOutput V))
      → Result ReviewError Checked
  unfolding current_nav cash_balance_as_of positions_as_of check_marks check_payloads review_time
  read_current l reviewed_at reviewed r valuations = do
    n ← or_raise (current_nav r.account_id r.session_id reviewed_at l.nav_snapshots) inconsistent
    time ← review_time n.snapshot_at
    cash ← or_inconsistent (cash_balance_as_of l r.account_id n.snapshot_at)
    holdings ← or_inconsistent (positions_as_of l r.account_id n.snapshot_at)
    reviewed_cash ← or_inconsistent (cash_balance_as_of l r.account_id reviewed_at)
    reviewed_holdings ← or_inconsistent (positions_as_of l r.account_id reviewed_at)
    raise_if (ltb reviewed.instant time.instant || not (str_eq time.date r.session_id)) inconsistent
    raise_if (not (same_int n.cash_krw cash) || not (same_int reviewed_cash cash)) inconsistent
    raise_if
        (not (same_int reviewed_holdings.at_005930 holdings.at_005930)
          || not (same_int reviewed_holdings.at_000660 holdings.at_000660))
        inconsistent
    raise_if (not (same_int n.nav_krw (n.cash_krw +ℤ n.position_value_krw))) inconsistent
    value ← check_marks time holdings n.position_marks
    raise_if (not (same_int value n.position_value_krw)) inconsistent
    check_payloads r valuations n.position_marks
    ok (record { nav = n; cash = cash; holdings = holdings })

  -- `ORDER BY session_date, snapshot_at, ...`
  abbrev history_before : NavSnapshot → NavSnapshot → Bool
  history_before a b =
      str_lt a.session_date b.session_date
      || (str_eq a.session_date b.session_date && nav_before a b)

-- A snapshot of the history, which must agree with the events of its time; its value.
unfoldable pub check_history : Ledger → String → Moment → NavSnapshot → Result ReviewError ℤ
unfolding cash_balance_as_of positions_as_of check_marks review_time
check_history l account_id reviewed n = do
  time ← review_time n.snapshot_at
  raise_if (ltb reviewed.instant time.instant || not (str_eq time.date n.session_date)) inconsistent
  cash ← or_inconsistent (cash_balance_as_of l account_id n.snapshot_at)
  holdings ← or_inconsistent (positions_as_of l account_id n.snapshot_at)
  raise_if (not (same_int n.cash_krw cash)) inconsistent
  value ← check_marks time holdings n.position_marks
  raise_if
      (ltb_ℤ n.nav_krw (pos 1) || ltb_ℤ n.cash_krw (pos 0) || ltb_ℤ n.position_value_krw (pos 0))
      inconsistent
  raise_if
      (not (same_int value n.position_value_krw)
        || not (same_int n.nav_krw (n.cash_krw +ℤ n.position_value_krw)))
      inconsistent
  ok n.nav_krw

-- `high_water`, and the value of the last session before, if there is one
pub record Highs : Type 0 where
  pub high_water : Option ℤ
  pub prior : Option ℤ

abbrev pub raise_high : ℤ → Option ℤ → Option ℤ
raise_high v none = some v
raise_high v (some w) = some (max_ℤ w v)

-- The loop over the history, from the highs so far.
unfoldable pub read_history :
    Ledger → String → String → Moment → Highs → List NavSnapshot → Result ReviewError Highs
unfolding check_history
read_history l account_id session_id reviewed h [] = ok h
read_history l account_id session_id reviewed h (n ∷ ns) = do
  v ← check_history l account_id reviewed n
  read_history l account_id session_id reviewed
      (record {
        high_water = raise_high v h.high_water;
        prior = if str_lt n.session_date session_id then some v else h.prior;
      })
      ns

module _ {V : Type 0} (env : Reviewing V) where
  -- The history of the account up to the session.
  unfoldable pub history_of : Ledger → String → String → List NavSnapshot
  unfolding sort_by
  history_of l account_id session_id = sort_by (history_before env) (
      filter (λ n. str_eq n.account_id account_id && not (str_lt session_id n.session_date))
        l.nav_snapshots)
