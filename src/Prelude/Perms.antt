-- ===== src/Prelude/Perms.antt =====
-- What a rearrangement of a list keeps.
use mathlib.Core.List.{Perm, Permᴰ}
use mathlib.Core.Logic.{∥∥₁_elim}
use mathlib.Core.List.{List, [], ◌∷◌}
use mathlib.Core.Path.{subst}
use mathlib.Core.HLevel.{×_prop}
use chaoskit.Prelude.Lists.{All}

All-prop {ℓ κ} :
    {A : Type ℓ} (P : A → Type κ) → ((a : A) → IsProp (P a)) → (xs : List A) → IsProp (All P xs)
All-prop P h [] = λ x y. hlevel
All-prop P h (x ∷ xs) = ×_prop (h x) (All-prop P h xs)

All-Permᴰ {ℓ κ} : {A : Type ℓ} (P : A → Type κ) {xs ys : List A} → Permᴰ xs ys → All P xs → All P ys
All-Permᴰ P Permᴰ.nil h = h
All-Permᴰ P (Permᴰ.cons e p) h = (subst P e h.0, All-Permᴰ P p h.1)
All-Permᴰ P (Permᴰ.swap d e) h = (subst P e h.1.0, (subst P d h.0, h.1.1))
All-Permᴰ P (Permᴰ.trans p q) h = All-Permᴰ P q (All-Permᴰ P p h)

pub All-Perm {ℓ κ} :
    {A : Type ℓ} (P : A → Type κ)
    → ((a : A) → IsProp (P a))
    → {xs ys : List A} → Perm xs ys
    → All P xs
    → All P ys
All-Perm P prop {ys = ys} p h = ∥∥₁_elim p (All-prop P prop ys) (λ d. All-Permᴰ P d h)
