-- ===== src/Exec/Ensures.antt =====
-- What holds when an action is left, by a return or by a panic: one rule for each way to build an
-- action.
use chaoskit.Prelude.{ℕ, ◌<◌, ◌≡◌, refl, Bool, true, false, if◌then◌else◌}
use chaoskit.Text.{Str}
use chaoskit.Exec.{
  Exec, Outcome, returns, panics, pure, defer, recover, continue, after_all, recovered, ◌>>=◌,
}

-- `Q` after a return with its value, `R` after a panic.
abbrev pub Leaves : {S A : Type 0} → (A → S → Type 0) → (S → Type 0) → Outcome A × S → Type 0
Leaves Q R (returns a, s) = Q a s
Leaves Q R (panics v, s) = R s

pub record Ensures {S A : Type 0} (P : S → Type 0) (m : Exec S A) (Q : A → S → Type 0)
    (R : S → Type 0) : Type 0 where
  pub at : (s : S) → P s → Leaves Q R (m s)

-- The invariant holds afterwards, however the action is left.
abbrev pub Keeps : {S A : Type 0} → (S → Type 0) → Exec S A → Type 0
Keeps P m = Ensures P m (λ _. P) P

module _ {S A : Type 0} (Q : A → S → Type 0) (R : S → Type 0) where
  weaken :
      (Q' : A → S → Type 0) (R' : S → Type 0) (x : Outcome A × S)
      → ((a : A) (s : S) → Q a s → Q' a s)
      → ((s : S) → R s → R' s)
      → Leaves Q R x
      → Leaves Q' R' x
  weaken Q' R' (returns a, s) f g l = f a s l
  weaken Q' R' (panics v, s) f g l = g s l

  after_all_at :
      (r : Outcome A) (x : Outcome (Unit {0}) × S)
      → Leaves (λ _ s. Leaves Q R (r, s)) R x
      → Leaves Q R (after_all r x)
  after_all_at r (returns _, s) l = l
  after_all_at r (panics v, s) l = l

  defer_at :
      (T : A → S → Type 0) (U : S → Type 0) (cleanup : Exec S (Unit {0}))
      → ((a : A) → Ensures (T a) cleanup (λ _. Q a) R)
      → Ensures U cleanup (λ _. R) R
      → (x : Outcome A × S) → Leaves T U x
      → Leaves Q R ((let (r, s) = x in after_all r (cleanup s)))
  defer_at T U cleanup h k (returns a, s) l = after_all_at (returns a) (cleanup s) ((h a).at s l)
  defer_at T U cleanup h k (panics v, s) l = after_all_at (panics v) (cleanup s) (k.at s l)

  recover_at :
      (U : S → Type 0) (handler : Str → Exec S A)
      → ((v : Str) → Ensures U (handler v) Q R)
      → (x : Outcome A × S) → Leaves Q U x
      → Leaves Q R ((let (r, s) = x in recovered handler r s))
  recover_at U handler k (returns a, s) l = l
  recover_at U handler k (panics v, s) l = (k v).at s l

module _ {S A B : Type 0} (Q : B → S → Type 0) (R : S → Type 0) where
  bind_at :
      (T : A → S → Type 0) (f : A → Exec S B)
      → ((a : A) → Ensures (T a) (f a) Q R)
      → (x : Outcome A × S) → Leaves T R x
      → Leaves Q R ((let (r, s) = x in continue f r s))
  bind_at T f k (returns a, s) l = (k a).at s l
  bind_at T f k (panics v, s) l = l

module _ {S A : Type 0} {P : S → Type 0} {Q : A → S → Type 0} {R : S → Type 0} where
  pub Ensures-pure : (a : A) → ((s : S) → P s → Q a s) → Ensures P (pure a) Q R
  Ensures-pure a h = record { at = h }

  pub Ensures-if :
      (b : Bool) {m n : Exec S A}
      → (b ≡ true → Ensures P m Q R)
      → (b ≡ false → Ensures P n Q R)
      → Ensures P (if b then m else n) Q R
  Ensures-if true h k = h refl
  Ensures-if false h k = k refl

  pub Ensures-weaken :
      {P' : S → Type 0} {Q' : A → S → Type 0} {R' : S → Type 0} {m : Exec S A}
      → Ensures P m Q R
      → ((s : S) → P' s → P s)
      → ((a : A) (s : S) → Q a s → Q' a s)
      → ((s : S) → R s → R' s)
      → Ensures P' m Q' R'
  Ensures-weaken {Q' = Q'} {R' = R'} {m = m} h f g k = record {
    at = λ s p. weaken Q R Q' R' (m s) g k (h.at s (f s p));
  }

module _ {S A B : Type 0} {P : S → Type 0} {Q : B → S → Type 0} {R : S → Type 0} where
  pub Ensures-bind :
      {T : A → S → Type 0} {m : Exec S A} {f : A → Exec S B}
      → Ensures P m T R
      → ((a : A) → Ensures (T a) (f a) Q R)
      → Ensures P (m >>= f) Q R
  unfolding ◌>>=◌
  Ensures-bind {T} {m} {f} h k = record { at = λ s p. bind_at Q R T f k (m s) (h.at s p) }

module _ {S A : Type 0} {P : S → Type 0} {Q : A → S → Type 0} {R : S → Type 0} where
  pub Ensures-defer :
      {T : A → S → Type 0} {U : S → Type 0} {body : Exec S A} {cleanup : Exec S (Unit {0})}
      → Ensures P body T U
      → ((a : A) → Ensures (T a) cleanup (λ _. Q a) R)
      → Ensures U cleanup (λ _. R) R
      → Ensures P (defer cleanup body) Q R
  unfolding defer
  Ensures-defer {T} {U} {body} {cleanup} h k l = record {
    at = λ s p. defer_at Q R T U cleanup k l (body s) (h.at s p);
  }

  pub Ensures-recover :
      {U : S → Type 0} {body : Exec S A} {handler : Str → Exec S A}
      → Ensures P body Q U
      → ((v : Str) → Ensures U (handler v) Q R)
      → Ensures P (recover handler body) Q R
  unfolding recover
  Ensures-recover {U} {body} {handler} h k = record {
    at = λ s p. recover_at Q R U handler k (body s) (h.at s p);
  }

-- Nothing is known of the state, nor of what is left behind.
abbrev pub Anything : {S : Type 0} → S → Type 0
Anything s = Unit {0}

Anything-Leaves : {S A : Type 0} (x : Outcome A × S) → Leaves {A = A} (λ _. Anything) Anything x
Anything-Leaves (returns a, s) = tt
Anything-Leaves (panics v, s) = tt

pub Keeps-Anything : {S A : Type 0} (m : Exec S A) → Keeps Anything m
Keeps-Anything m = record { at = λ s _. Anything-Leaves (m s) }

-- A fact that is not about the state.
pub Ensures-given :
    {S A : Type 0} {C : Type 0} {m : Exec S A} {Q : A → S → Type 0} {R : S → Type 0}
    → (C → Ensures Anything m Q R)
    → Ensures (λ _. C) m Q R
Ensures-given h = record { at = λ s c. (h c).at s tt }

kept : {S A : Type 0} (P : S → Type 0) (x : Outcome A × S) → Leaves (λ _. P) P x → P x.1
kept P (returns a, s) l = l
kept P (panics v, s) l = l

-- An invariant of the state that is left behind.
pub Keeps-state :
    {S A : Type 0} {P : S → Type 0} {m : Exec S A} → Keeps P m → (s : S) → P s → P (m s).1
Keeps-state {P = P} {m = m} k s p = kept P (m s) (k.at s p)

-- What the code relies on of a source of random numbers: that it returns, and that rng.Intn(n)
-- and rng.Int63n(n) answer less than a positive n.
abbrev pub Returns : {S A : Type 0} → Exec S A → Type 0
Returns m = Ensures (λ _. Unit {0}) m (λ _ _. Unit {0}) (λ _. ⊥)

abbrev pub DrawsBelow : {S : Type 0} → (ℕ → ℕ → Exec S ℕ) → Type 0
DrawsBelow intn = (g n : ℕ) → 0 < n → Ensures (λ _. Unit {0}) (intn g n) (λ k _. k < n) (λ _. ⊥)
