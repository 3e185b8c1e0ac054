-- ===== src/Dict.antt =====
-- Go's map with string keys, by its entries in the order of insertion.
use chaoskit.Prelude.{◌≡◌, refl, Option, none, some, List, [], ◌∷◌, arith, if◌then◌else◌}
use chaoskit.Text.{Str, str_eq}
use chaoskit.Text.Search.{str_eq_iff}

abbrev pub Dict {ℓ} : Type ℓ → Type ℓ
Dict V = List (Str × V)

module _ {ℓ} {V : Type ℓ} where
  -- m[key] = v
  unfoldable pub put : Str → V → Dict V → Dict V
  put key v [] = (key, v) ∷ []
  put key v ((k, w) ∷ rest) = if str_eq k key then (k, v) ∷ rest else (k, w) ∷ put key v rest

  -- v, ok := m[key]
  unfoldable pub find : Str → Dict V → Option V
  find key [] = none
  find key ((k, w) ∷ rest) = if str_eq k key then some w else find key rest

  pub find-put :
      (j k : Str) (v : V) (m : Dict V)
      → find j (put k v m) ≡ (if str_eq k j then some v else find j m)
  unfolding find put
  find-put j k v [] = refl
  find-put j k v ((i, w) ∷ m) =
      ground (arith, str_eq_iff k j, str_eq_iff i k, str_eq_iff i j, find-put j k v m)

  -- delete(m, key)
  unfoldable pub delete : Str → Dict V → Dict V
  delete key [] = []
  delete key ((k, w) ∷ rest) =
      let rest' = delete key rest in if str_eq k key then rest' else (k, w) ∷ rest'

  pub find-delete :
      (j k : Str) (m : Dict V) → find j (delete k m) ≡ (if str_eq k j then none else find j m)
  unfolding find delete
  find-delete j k [] = ground arith
  find-delete j k ((i, w) ∷ m) =
      ground (arith, str_eq_iff k j, str_eq_iff i k, str_eq_iff i j, find-delete j k m)
