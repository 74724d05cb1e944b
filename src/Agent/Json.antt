-- ===== src/Agent/Json.antt =====
-- Values that a model may answer with, as Python holds them after `json.loads`, and the operations
-- on numbers that strategy/paper_agent.py uses. Python numbers, integers and floats alike, are a
-- type of the model's user.
use Prim.Native.Char.{code}
use kronos_stock.Common.{
  ℕ, String, List, [], ◌∷◌, Bool, true, ◌&&◌, ◌||◌, ◌==◌, leb, Option, none, some, if◌then◌else◌,
  str_eq, all,
}
use kronos_stock.Common.Int.{ℤ}
use kronos_stock.Common.Text.{one_of}

-- `foreign` is a value of any other type, such as a tuple.
mutual
  pub data Json (V : Type 0) : Type 0 where
    null : Json V
    boolean : Bool → Json V
    number : V → Json V
    string : String → Json V
    array : Items V → Json V
    object : Members V → Json V
    foreign : Json V

  pub data Items (V : Type 0) : Type 0 where
    no_items : Items V
    item : Json V → Items V → Items V

  pub data Members (V : Type 0) : Type 0 where
    no_members : Members V
    member : String → Json V → Members V → Members V

-- `math.isfinite` and `float()`, which raise `OverflowError` (`none`) for an integer that no float
-- holds; the value of an `int`, else `none`; an `int` as a number; comparisons and arithmetic.
pub record PythonNumbers (V : Type 0) : Type 0 where
  pub is_finite : V → Option Bool
  pub to_float : V → Option V
  pub as_int : V → Option ℤ
  pub of_int : ℤ → V
  pub less : V → V → Bool
  pub equal : V → V → Bool
  pub plus : V → V → V
  pub minus : V → V → V
  pub magnitude : V → V
  -- `a / b * 100.0`
  pub percentage : V → V → V
  -- `_EXPOSURE_TOLERANCE_PCT`
  pub exposure_tolerance : V
  -- `_PCT_TOLERANCE`
  pub pct_tolerance : V

module _ {V : Type 0} where
  unfoldable pub items_of : Items V → List (Json V)
  items_of no_items = []
  items_of (item j js) = j ∷ items_of js

  unfoldable pub to_items : List (Json V) → Items V
  to_items [] = no_items
  to_items (j ∷ js) = item j (to_items js)

  unfoldable pub names : Members V → List String
  names no_members = []
  names (member key j ms) = key ∷ names ms

  -- `payload[key]`
  unfoldable pub lookup : String → Members V → Option (Json V)
  lookup key no_members = none
  lookup key (member k j ms) = let rest = lookup key ms in if str_eq k key then some j else rest

-- `set(names) == set(keys)`
unfoldable pub same_names : List String → List String → Bool
same_names found keys = all (λ n. one_of n keys) found && all (λ k. one_of k found) keys

-- `str.isspace` of a character
is_space : ℕ → Bool
is_space c =
    (leb 9 c && leb c 13)
    || (leb 28 c && leb c 32)
    || c == 133
    || c == 160
    || c == 5760
    || (leb 8192 c && leb c 8202)
    || c == 8232
    || c == 8233
    || c == 8239
    || c == 8287
    || c == 12288

-- `not s.strip()`
unfoldable pub is_blank : String → Bool
unfolding is_space
is_blank String.[] = true
is_blank (String.◌∷◌ c s) = is_space (code c) && is_blank s
