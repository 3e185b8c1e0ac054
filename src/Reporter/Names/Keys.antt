-- ===== src/Reporter/Names/Keys.antt =====
-- The order in which Go visits the mappings matters to no name whose keys agree (reporter.go).
use mathlib.Core.List.{Perm}
use mathlib.Core.List.Perm
use mathlib.Core.HLevel.{Π_prop}
use chaoskit.Prelude.{
  ◌≡◌, refl, ◌⊎◌, inl, inr, true, false, none, some, List, [], ◌∷◌, arith, All, Bool-cases,
}
use chaoskit.Prelude.Perms.{All-Perm}
use chaoskit.Text.{Str, contains}
use chaoskit.Reporter.Names.{Mapping, mappings, first_key, plain_name, normalize_validator_name}

Str-set : IsSet Str
Str-set = hlevel

-- All the keys that the plain name holds lead to one canonical name.
abbrev pub Agrees : Str → Str → Mapping → Type 0
Agrees name w m = contains name m.0 ≡ true → m.1 ≡ w

abbrev pub IsUnambiguous : Str → Type 0
IsUnambiguous v = (w : Str) × All (Agrees (plain_name v) w) mappings

abbrev Misses : Str → Mapping → Type 0
Misses name m = contains name m.0 ≡ false

first_key-Agrees :
    (name w : Str) (l : List Mapping)
    → All (Agrees name w) l
    → (first_key l name ≡ none) ⊎ (first_key l name ≡ some w)
unfolding first_key
first_key-Agrees name w [] h = inl refl
first_key-Agrees name w ((k, x) ∷ l) h = elim (Bool-cases (contains name k)) [
  | inl e ↦ inr (rw (e, h.0 e) refl)
  | inr e ↦ rw e (first_key-Agrees name w l h.1)
]

first_key-Misses : (name : Str) (l : List Mapping) → first_key l name ≡ none → All (Misses name) l
unfolding first_key
first_key-Misses name [] h = tt
first_key-Misses name ((k, x) ∷ l) h = ground (arith, first_key-Misses name l)

Misses-first_key : (name : Str) (l : List Mapping) → All (Misses name) l → first_key l name ≡ none
unfolding first_key
Misses-first_key name [] h = refl
Misses-first_key name ((k, x) ∷ l) h = ground (arith, Misses-first_key name l h.1)

module _ (name : Str) {l m : List Mapping} (p : Perm l m) where
  first_key-none : first_key l name ≡ none → first_key m name ≡ none
  first_key-none h =
      Misses-first_key name m (All-Perm (Misses name) (λ x. hlevel) p (first_key-Misses name l h))

  Agrees-Perm : (w : Str) → All (Agrees name w) l → All (Agrees name w) m
  Agrees-Perm w = All-Perm (Agrees name w) (λ x. Π_prop λ e. Str-set _ _) p

first_key-Perm :
    (name w : Str) (l m : List Mapping)
    → Perm l m
    → All (Agrees name w) m
    → first_key l name ≡ first_key m name
first_key-Perm name w l m p h = ground (
  arith,
  first_key-Agrees name w m h,
  first_key-Agrees name w l (Agrees-Perm name (Perm.symm p) w h),
  first_key-none name p,
  first_key-none name (Perm.symm p),
)

-- An unambiguous name has one canonical form, in whatever order the mappings are visited.
pub normalize-Perm :
    (order : List Mapping) (v : Str)
    → Perm order mappings
    → IsUnambiguous v
    → normalize_validator_name order v ≡ normalize_validator_name mappings v
unfolding normalize_validator_name
normalize-Perm order v p (w, h) = rw (first_key-Perm (plain_name v) w order mappings p h)
