-- ===== src/Errors.antt =====
-- Go's error values: what `Error()` prints and what `errors.Is` finds behind `%w`.
use chaoskit.Prelude.{◌≡◌, refl, Bool, true, false, ◌++◌}
use chaoskit.Text.{Str, codes}

-- `wrapped p e` is fmt.Errorf(p + "%w", e): every `%w` of the source ends its format.
pub data Error : Type 0 where
  plain : Str → Error
  wrapped : Str → Error → Error
  canceled : Error
  deadline_exceeded : Error

-- e.Error()
unfoldable pub message : Error → Str
message (plain s) = s
message (wrapped p e) = p ++ message e
message canceled = codes "context canceled"
message deadline_exceeded = codes "context deadline exceeded"

-- errors.Is(e, context.DeadlineExceeded)
unfoldable pub is_deadline : Error → Bool
is_deadline (plain s) = false
is_deadline (wrapped p e) = is_deadline e
is_deadline canceled = false
is_deadline deadline_exceeded = true

-- What a call hands back: a value, an error, or a run-time panic that unwinds the caller.
pub data Result {ℓ} (A : Type ℓ) : Type ℓ where
  ok : A → Result A
  err : Error → Result A
  panic : Str → Result A

module _ {ℓ κ} {A : Type ℓ} {B : Type κ} where
  infixl 5 ◌>>=◌ ◌>>◌
  abbrev pub ◌>>=◌ : Result A → (A → Result B) → Result B
  panic v >>= next = panic v
  err e >>= next = err e
  ok a >>= next = next a

  abbrev pub ◌>>◌ : Result A → Result B → Result B
  r >> next = r >>= λ _. next

  -- A chain that returned went through a value of its first part.
  pub >>=-eq-ok :
      (r : Result A) (next : A → Result B) {b : B}
      → (r >>= next) ≡ ok b
      → (a : A) × (r ≡ ok a) × (next a ≡ ok b)
  >>=-eq-ok (panic v) next h = cc
  >>=-eq-ok (err e) next h = cc
  >>=-eq-ok (ok a) next h = (a, refl, h)
