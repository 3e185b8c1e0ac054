-- ===== src/Reporter/Sorting/Order.antt =====
-- The sort gives the same entries, the largest count first.
use mathlib.Core.List.{Perm}
use mathlib.Core.List.Perm
use chaoskit.Prelude.{ℕ, ◌≤◌, List, [], ◌∷◌, arith, ltb, Bool-cases, inl, inr, All}
use chaoskit.Reporter.Sorting.{insert_by, sort_by}

module _ {A : Type 0} (count : A → ℕ) where
  insert_by-Perm : (a : A) (bs : List A) → Perm (insert_by count a bs) (a ∷ bs)
  unfolding insert_by
  insert_by-Perm a [] = Perm.refl (a ∷ [])
  insert_by-Perm a (b ∷ bs) = elim (Bool-cases (ltb (count a) (count b))) [
    | inl e ↦ rw e (Perm.trans (Perm.cons b (insert_by-Perm a bs)) (Perm.swap a b bs))
    | inr e ↦ rw e (Perm.refl (a ∷ b ∷ bs))
  ]

  pub sort_by-Perm : (xs : List A) → Perm (sort_by count xs) xs
  unfolding sort_by
  sort_by-Perm [] = Perm.refl []
  sort_by-Perm (a ∷ xs) =
      Perm.trans (insert_by-Perm a (sort_by count xs)) (Perm.cons a (sort_by-Perm xs))

  -- No entry has more than one in front of it.
  abbrev pub IsSorted : List A → Type 0
  IsSorted [] = Unit
  IsSorted (a ∷ xs) = All (λ b. count b ≤ count a) xs × IsSorted xs

  insert_by-All :
      (n : ℕ) (a : A) (bs : List A)
      → count a ≤ n
      → All (λ b. count b ≤ n) bs
      → All (λ b. count b ≤ n) (insert_by count a bs)
  unfolding insert_by
  insert_by-All n a [] h k = (h, tt)
  insert_by-All n a (b ∷ bs) h k = ground (arith, insert_by-All n a bs h k.1)

  All-mono : (m n : ℕ) (bs : List A) → m ≤ n → All (λ b. count b ≤ m) bs → All (λ b. count b ≤ n) bs
  All-mono m n [] h k = tt
  All-mono m n (b ∷ bs) h k = (omega arith, All-mono m n bs h k.1)

  insert_by-IsSorted : (a : A) (bs : List A) → IsSorted bs → IsSorted (insert_by count a bs)
  unfolding insert_by
  insert_by-IsSorted a [] h = (tt, tt)
  insert_by-IsSorted a (b ∷ bs) h = ground (
    arith,
    insert_by-IsSorted a bs h.1,
    insert_by-All (count b) a bs,
    All-mono (count b) (count a) bs,
  )

  pub sort_by-IsSorted : (xs : List A) → IsSorted (sort_by count xs)
  unfolding sort_by
  sort_by-IsSorted [] = tt
  sort_by-IsSorted (a ∷ xs) = insert_by-IsSorted a (sort_by count xs) (sort_by-IsSorted xs)
