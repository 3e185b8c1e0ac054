-- ===== src/Executor/Kept.antt =====
-- The sublist of the injectors with a property (for executor.go: the network injectors, and those whose
-- network stays up).
use chaoskit.Prelude.{
  ℕ, ◌≡◌, refl, ap, Bool, true, false, List, [], ◌∷◌, ◌++◌, append-nil, if◌then◌else◌,
}

-- Those that stay.
abbrev pub keep : (ℕ → Bool) → List ℕ → List ℕ
keep stays [] = []
keep stays (i ∷ l) = let rest = keep stays l in if stays i then i ∷ rest else rest

unless_kept :
    (b : Bool) (i : ℕ) (r r' m : List ℕ)
    → r ≡ r' ++ m
    → (if b then i ∷ r else r) ≡ (if b then i ∷ r' else r') ++ m
unless_kept true i r r' m e = ap (λ r. i ∷ r) e
unless_kept false i r r' m e = e

keep-append : (stays : ℕ → Bool) (l m : List ℕ) → keep stays (l ++ m) ≡ keep stays l ++ keep stays m
keep-append stays [] m = refl
keep-append stays (i ∷ l) m = unless_kept (stays i) i _ _ (keep stays m) (keep-append stays l m)

pub keep_one :
    (stays : ℕ → Bool) (l : List ℕ) (i : ℕ)
    → stays i ≡ true
    → keep stays (l ++ i ∷ []) ≡ keep stays l ++ i ∷ []
keep_one stays l i e = rw (keep-append stays l (i ∷ []), e) refl

pub keep_none :
    (stays : ℕ → Bool) (l : List ℕ) (i : ℕ)
    → stays i ≡ false
    → keep stays (l ++ i ∷ []) ≡ keep stays l
keep_none stays l i e = rw (keep-append stays l (i ∷ []), e) (append-nil (keep stays l))
