-- ===== src/Common/Text.antt =====
-- Python's `startswith` and `endswith`, and collections of texts.
use Prim.Native.Nat.{ℕ}
use Prim.Native.String.{String}
use mathlib.Core.Bool.{Bool, true, false, ◌&&◌, ◌||◌}
use mathlib.Core.List.{List, [], ◌∷◌}
use text.Mathlib.Text.{◌==◌ as str_eq}
use kronos_stock.Common.Tests.{◌==◌}
use kronos_stock.Common.Lists.{any}
use kronos_stock.Common.Time.{codes, str_lt}
use kronos_stock.Common.Sorting.{sort_by}

-- The first list begins with the second.
unfoldable pub codes_start : List ℕ → List ℕ → Bool
codes_start cs [] = true
codes_start [] (p ∷ ps) = false
codes_start (c ∷ cs) (p ∷ ps) = c == p && codes_start cs ps

same_codes : List ℕ → List ℕ → Bool
same_codes [] [] = true
same_codes (a ∷ as') (b ∷ bs) = a == b && same_codes as' bs
same_codes _ _ = false

codes_end : List ℕ → List ℕ → Bool
unfolding same_codes
codes_end [] ps = same_codes [] ps
codes_end (c ∷ cs) ps = same_codes (c ∷ cs) ps || codes_end cs ps

unfoldable pub starts_with : String → String → Bool
unfolding codes_start
starts_with s prefix = codes_start (codes s) (codes prefix)

unfoldable pub ends_with : String → String → Bool
unfolding codes_end
ends_with s suffix = codes_end (codes s) (codes suffix)

-- `s in {...}`
abbrev pub one_of : String → List String → Bool
one_of s names = any (str_eq s) names

-- Equality of tuples of texts.
unfoldable pub same_texts : List String → List String → Bool
same_texts [] [] = true
same_texts (a ∷ as') (b ∷ bs) = str_eq a b && same_texts as' bs
same_texts _ _ = false

-- `len(set(names)) != len(names)`
unfoldable pub has_duplicate : List String → Bool
has_duplicate [] = false
has_duplicate (s ∷ ss) = one_of s ss || has_duplicate ss

-- `tuple(sorted(names))`
unfoldable pub sorted_names : List String → List String
sorted_names names = sort_by str_lt names
