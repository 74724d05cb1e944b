-- ===== src/Symbols.antt =====
-- `SUPPORTED_SYMBOLS` (ksf/feature_engine.py, paper_trading/ledger.py), and dictionaries that are
-- keyed by it. The actions of a decision, and the sides of an order.
use kronos_stock.Common.{Bool, true, false}

pub data Symbol : Type 0 where
  s005930 s000660 : Symbol

abbrev pub same_symbol : Symbol → Symbol → Bool
same_symbol s005930 s005930 = true
same_symbol s000660 s000660 = true
same_symbol _ _ = false

-- The texts' order.
abbrev pub symbol_lt : Symbol → Symbol → Bool
symbol_lt s000660 s005930 = true
symbol_lt _ _ = false

pub record PerSymbol (A : Type 0) : Type 0 where
  pub at_005930 : A
  pub at_000660 : A

abbrev pub get : {A : Type 0} → PerSymbol A → Symbol → A
get d s005930 = d.at_005930
get d s000660 = d.at_000660

abbrev pub put : {A : Type 0} → PerSymbol A → Symbol → A → PerSymbol A
put d s005930 v = record d { at_005930 = v }
put d s000660 v = record d { at_000660 = v }

-- `ACTIONS`
pub data Action : Type 0 where
  enter hold reduce exit abstain : Action

pub data Side : Type 0 where
  buy sell : Side
