-- ===== src/Common/Sorting.antt =====
-- Python's `sorted` and `list.sort`, which are stable, as a stable insertion sort.
use mathlib.Core.Path.{◌≡◌, refl}
use mathlib.Core.Logic.{◌≢◌}
use native.Mathlib.Omega.{arith}
use mathlib.Core.Bool.{Bool, true, false}
use mathlib.Core.List.{List, [], ◌∷◌, Perm}
use mathlib.Core.List.Perm
use kronos_stock.Common.Tests.{if◌then◌else◌}
use kronos_stock.Common.Lists.{All, All-if}

module _ {A : Type 0} (before : A → A → Bool) where
  -- `x` goes in front of the first element that comes strictly after it or is equal to it: what
  -- stands in the list stood behind `x`.
  unfoldable pub insert_sorted : A → List A → List A
  insert_sorted x [] = x ∷ []
  insert_sorted x (y ∷ ys) = if before y x then y ∷ insert_sorted x ys else x ∷ y ∷ ys

  unfoldable pub sort_by : List A → List A
  unfolding insert_sorted
  sort_by [] = []
  sort_by (x ∷ xs) = insert_sorted x (sort_by xs)

  if-perm : (b : Bool) {xs ys : List A} → Perm xs ys → Perm (if b then xs else ys) ys
  if-perm true p = p
  if-perm false p = Perm.refl _

  insert_sorted-perm : (x : A) (ys : List A) → Perm (insert_sorted x ys) (x ∷ ys)
  unfolding insert_sorted
  insert_sorted-perm x [] = Perm.refl _
  insert_sorted-perm x (y ∷ ys) =
      if-perm (before y x) (Perm.trans (Perm.cons y (insert_sorted-perm x ys)) (Perm.swap x y ys))

  pub sort_by-perm : (xs : List A) → Perm (sort_by xs) xs
  unfolding sort_by
  sort_by-perm [] = Perm.refl _
  sort_by-perm (x ∷ xs) =
      Perm.trans (insert_sorted-perm x (sort_by xs)) (Perm.cons x (sort_by-perm xs))

  insert_sorted-All :
      (P : A → Type 0) (x : A) (ys : List A) → P x → All P ys → All P (insert_sorted x ys)
  unfolding insert_sorted
  insert_sorted-All P x [] px h = (px, tt)
  insert_sorted-All P x (y ∷ ys) px h =
      All-if P (before y x) (y ∷ insert_sorted x ys) (x ∷ y ∷ ys)
        (h.0, insert_sorted-All P x ys px h.1) (px, h)

  pub sort_by-All : (P : A → Type 0) (xs : List A) → All P xs → All P (sort_by xs)
  unfolding sort_by
  sort_by-All P [] h = tt
  sort_by-All P (x ∷ xs) h = insert_sorted-All P x (sort_by xs) h.0 (sort_by-All P xs h.1)

  insert_sorted-ne-nil : (x : A) (ys : List A) → insert_sorted x ys ≢ []
  unfolding insert_sorted
  insert_sorted-ne-nil x [] h = cc
  insert_sorted-ne-nil x (y ∷ ys) h = ground arith

  pub sort_by-eq-nil : (xs : List A) → sort_by xs ≡ [] → xs ≡ []
  unfolding sort_by
  sort_by-eq-nil [] h = refl
  sort_by-eq-nil (x ∷ xs) h = absurd (insert_sorted-ne-nil x (sort_by xs) h)
