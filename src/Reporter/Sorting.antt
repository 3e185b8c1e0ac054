-- ===== src/Reporter/Sorting.antt =====
-- `sort.Slice` by a count, the largest first.
pub mod Order
use chaoskit.Prelude.{ℕ, List, [], ◌∷◌, ltb, if◌then◌else◌}

module _ {A : Type 0} (count : A → ℕ) where
  -- An entry goes in front of the first one that has no more than it.
  unfoldable pub insert_by : A → List A → List A
  insert_by a [] = a ∷ []
  insert_by a (b ∷ bs) = if ltb (count a) (count b) then b ∷ insert_by a bs else a ∷ b ∷ bs

  unfoldable pub sort_by : List A → List A
  unfolding insert_by
  sort_by [] = []
  sort_by (a ∷ xs) = insert_by a (sort_by xs)
