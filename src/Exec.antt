-- ===== src/Exec.antt =====
-- Go code that changes a state and may panic. A panic unwinds the caller with the state as it is;
-- an error is an ordinary value.
pub mod Ensures
use chaoskit.Prelude.{Bool, true, false, if◌then◌else◌, Option, none, some}
use chaoskit.Text.{Str}

-- The value of a panic is kept as the text that `%v` prints.
pub data Outcome {ℓ} (A : Type ℓ) : Type ℓ where
  returns : A → Outcome A
  panics : Str → Outcome A

abbrev pub Exec {ℓ} : Type ℓ → Type ℓ → Type ℓ
Exec S A = S → Outcome A × S

module _ {ℓ} {S A : Type ℓ} where
  abbrev pub pure : A → Exec S A
  pure a s = (returns a, s)

  -- defer: the clean-up runs however the body ends, and a panic of its own takes over.
  abbrev pub after_all : Outcome A → Outcome (Unit {ℓ}) × S → Outcome A × S
  after_all r (returns _, s) = (r, s)
  after_all r (panics v, s) = (panics v, s)

  unfoldable pub defer : Exec S (Unit {ℓ}) → Exec S A → Exec S A
  defer cleanup body s = let (r, s') = body s in after_all r (cleanup s')

  -- defer func() { if r := recover(); r != nil { … } }()
  abbrev pub recovered : (Str → Exec S A) → Outcome A → Exec S A
  recovered handler (returns a) s = (returns a, s)
  recovered handler (panics v) s = handler v s

  unfoldable pub recover : (Str → Exec S A) → Exec S A → Exec S A
  recover handler body s = let (r, s') = body s in recovered handler r s'

module _ {ℓ} {S A B : Type ℓ} where
  abbrev pub continue : (A → Exec S B) → Outcome A → Exec S B
  continue f (returns a) s = f a s
  continue f (panics v) s = (panics v, s)

  infixl 5 ◌>>=◌ ◌>>◌
  unfoldable pub ◌>>=◌ : Exec S A → (A → Exec S B) → Exec S B
  ◌>>=◌ m f s = let (r, s') = m s in continue f r s'

  abbrev pub ◌>>◌ : Exec S A → Exec S B → Exec S B
  m >> n = m >>= λ _. n
