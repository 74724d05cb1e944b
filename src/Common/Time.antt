-- ===== src/Common/Time.antt =====
-- Texts that stand for times: what `datetime.fromisoformat` reads from a text is part of it, as
-- a time point in microseconds and the local date's text, by the kind of offset that it carries.
-- Also `_kst` (strategy/paper_evaluation.py), `_kst_time` and `_sha256` (strategy/paper_risk.py),
-- `_require_kst_iso`, `_require_tz_iso` and `_require_sha256` (paper_trading/ledger.py).
use Prim.Native.Nat.{ℕ, ◌*◌}
use Prim.Native.Char.{code}
use Prim.Native.String.{String}
use mathlib.Core.Bool.{Bool, true, false, ◌&&◌, ◌||◌}
use mathlib.Core.Option.{Option, none, some}
use mathlib.Core.List.{List, [], ◌∷◌}
use kronos_stock.Common.Tests.{ltb, leb, ◌==◌}
use kronos_stock.Common.Lists.{length, all}

-- An aware `datetime`: its instant, and `.date().isoformat()` in its own offset.
pub record Moment : Type 0 where
  pub instant : ℕ
  pub date : String

pub data Reading : Type 0 where
  -- `fromisoformat` raises
  malformed : Reading
  -- no offset
  naive : Reading
  -- an offset other than nine hours
  other_offset : Moment → Reading
  -- an offset of nine hours that is not spelled "+09:00"
  kst_spelled_otherwise : Moment → Reading
  -- a text that ends in "+09:00"
  kst : Moment → Reading

pub record Timestamp : Type 0 where
  pub text : String
  pub reading : Reading

-- What a text that ends in "+09:00" stands for, else `none`.
unfoldable pub explicit_kst : Reading → Option Moment
explicit_kst (kst m) = some m
explicit_kst r = none

-- What a text with an offset of nine hours stands for, else `none`.
unfoldable pub nine_hours : Reading → Option Moment
nine_hours (kst m) = some m
nine_hours (kst_spelled_otherwise m) = some m
nine_hours r = none

-- What a text with some offset stands for, else `none`.
unfoldable pub aware : Reading → Option Moment
aware malformed = none
aware naive = none
aware (other_offset m) = some m
aware (kst_spelled_otherwise m) = some m
aware (kst m) = some m

abbrev pub seconds : ℕ → ℕ
seconds n = n * 1_000_000

abbrev pub codes : String → List ℕ
codes String.[] = []
codes (String.◌∷◌ c s) = code c ∷ codes s

-- Python's `<` on texts: by code points, a prefix first.
unfoldable pub codes_lt : List ℕ → List ℕ → Bool
codes_lt [] [] = false
codes_lt [] (b ∷ bs) = true
codes_lt (a ∷ as') [] = false
codes_lt (a ∷ as') (b ∷ bs) = ltb a b || (a == b && codes_lt as' bs)

unfoldable pub str_lt : String → String → Bool
unfolding codes_lt
str_lt s t = codes_lt (codes s) (codes t)

is_hex : ℕ → Bool
is_hex c = (leb b'0' c && leb c b'9') || (leb b'a' c && leb c b'f')

-- 64 characters out of "0123456789abcdef"
unfoldable pub is_sha256 : String → Bool
unfolding is_hex
is_sha256 s = length (codes s) == 64 && all is_hex (codes s)
