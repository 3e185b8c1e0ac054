-- ===== src/Injectors/Monkey/Corruption/Signatures.antt =====
-- Which functions the injector of corrupted values accepts
-- (injectors/monkey_patch_value_corruption.go).
use chaoskit.Prelude.{
  ℕ, suc, ◌<◌, ◌||◌, subst, ◌==◌, ==_iff, ◌≡◌, ◌↔◌, refl, sym, ap, Bool, Bool-cases, inl, inr, true,
  false, Option, none, some, List, [], ◌∷◌, length, arith, if◌then◌else◌,
}
use chaoskit.Text.{Str}
use chaoskit.Errors.{Error}
use chaoskit.Platform.{Platform}
use chaoskit.Injectors.Patches.{validate_probability}
use chaoskit.Injectors.Monkey.Checked.{probable}
use chaoskit.Injectors.Monkey.Corruption.{
  CorruptFunc, corrupting, ValueCorruptionPatchTarget, refused, parameter_error, result_error,
  first_unassignable, results_checked, parameters_checked, signatures_match, corruption_checks,
  corruption_parameters, not_nil,
}

guarded :
    (m n : ℕ) (x : Option Error) (e : Error)
    → ((if m == n then x else some e) ≡ none) ↔ ((m ≡ n) × (x ≡ none))
guarded m n x e = elim (Bool-cases (m == n)) [
  | inl q ↦ rw q (λ r. ((==_iff m n).0 q, r), λ r. r.1)
  | inr q ↦ rw q (λ r. cc, λ r. absurd (cc (q, (==_iff m n).1 r.0)))
]

both_none :
    (x y : Option Error)
    → (elim x [ some e ↦ some e | none ↦ y ] ≡ none) ↔ ((x ≡ none) × (y ≡ none))
both_none none y = (λ e. (refl, e), λ q. q.1)
both_none (some e) y = (λ q. cc, λ q. cc)

module _ (type_name : ℕ → Str) (assignable : ℕ → ℕ → Bool) where
  -- Each type is assignable to the one at its place, and none is left over.
  abbrev pub AllAssignable : List ℕ → List ℕ → Type 0
  AllAssignable [] [] = Unit
  AllAssignable (type ∷ types) (out ∷ outs) =
      (assignable type out ≡ true) × AllAssignable types outs
  AllAssignable [] (out ∷ outs) = ⊥
  AllAssignable (type ∷ types) [] = ⊥

  module _ (fault : ℕ → ℕ → ℕ → Option Error) (faulty : (j a b : ℕ) → fault j a b ≡ none → ⊥) where
    step_none :
        (x : Bool) (j a b : ℕ) (rest : Option Error)
        → ((if x then rest else fault j a b) ≡ none) ↔ ((x ≡ true) × (rest ≡ none))
    step_none true j a b rest = (λ e. (refl, e), λ q. q.1)
    step_none false j a b rest = (λ e. absurd (faulty j a b e), λ q. cc)

    passes-AllAssignable :
        (j : ℕ) (types outs : List ℕ)
        → length types ≡ length outs
        → first_unassignable type_name assignable fault j types outs ≡ none
        → AllAssignable types outs
    unfolding first_unassignable
    passes-AllAssignable j [] [] n e = tt
    passes-AllAssignable j [] (b ∷ outs) n e = omega (arith, n)
    passes-AllAssignable j (a ∷ types) [] n e = omega (arith, n)
    passes-AllAssignable j (a ∷ types) (b ∷ outs) n e =
        let (x, r) = (step_none (assignable a b) j a b _).0 e in
        (x, passes-AllAssignable (suc j) types outs (omega (arith, n)) r)

    AllAssignable-passes :
        (j : ℕ) (types outs : List ℕ)
        → AllAssignable types outs
        → first_unassignable type_name assignable fault j types outs ≡ none
    unfolding first_unassignable
    AllAssignable-passes j [] [] q = refl
    AllAssignable-passes j [] (b ∷ outs) q = absurd q
    AllAssignable-passes j (a ∷ types) [] q = absurd q
    AllAssignable-passes j (a ∷ types) (b ∷ outs) (x, q) =
        (step_none (assignable a b) j a b _).1 (x, AllAssignable-passes (suc j) types outs q)

  AllAssignable-length :
      (types outs : List ℕ) → AllAssignable types outs → length types ≡ length outs
  AllAssignable-length [] [] q = refl
  AllAssignable-length [] (b ∷ outs) q = absurd q
  AllAssignable-length (a ∷ types) [] q = absurd q
  AllAssignable-length (a ∷ types) (b ∷ outs) (x, q) = ap suc (AllAssignable-length types outs q)

  results_checked-AllAssignable :
      (i : ℕ) (results outs : List ℕ)
      → (results_checked type_name assignable i results outs ≡ none) ↔ AllAssignable results outs
  unfolding results_checked refused result_error
  results_checked-AllAssignable i results outs = (
    λ e.
        let (n, r) = (guarded (length results) (length outs) _ _).0 e in
        passes-AllAssignable _ (λ j a b q. cc) 0 results outs n r,
    λ q. (guarded (length results) (length outs) _ _).1 (
      AllAssignable-length results outs q,
      AllAssignable-passes _ (λ j a b q. cc) 0 results outs q,
    ),
  )

  parameters_checked-AllAssignable :
      (i : ℕ) (parameters results outs : List ℕ)
      → (parameters_checked type_name assignable i parameters results outs ≡ none)
        ↔ (AllAssignable parameters outs × AllAssignable results outs)
  unfolding parameters_checked refused parameter_error
  parameters_checked-AllAssignable i parameters results outs = (
    λ e.
        let (n, r) = (guarded (length parameters) (length outs) _ _).0 e in
        let (q, s) = (both_none _ _).0 r in
        (
          passes-AllAssignable _ (λ j a b q. cc) 0 parameters outs n q,
          (results_checked-AllAssignable i results outs).0 s,
        ),
    λ (q, s). (guarded (length parameters) (length outs) _ _).1 (
      AllAssignable-length parameters outs q,
      (both_none _ _).1 (
        AllAssignable-passes _ (λ j a b q. cc) 0 parameters outs q,
        (results_checked-AllAssignable i results outs).1 s,
      ),
    ),
  )

  -- The corrupt function is a function that takes as many values as the target's function returns,
  -- at least one, and returns as many, all of types assignable to the results' types.
  abbrev pub Matching : CorruptFunc → List ℕ → Type 0
  Matching c outs =
      (parameters : List ℕ) × (results : List ℕ) × (c ≡ corrupting parameters results)
      × (0 < length outs)
      × AllAssignable parameters outs
      × AllAssignable results outs

  abbrev parameters_of : CorruptFunc → List ℕ
  parameters_of (corrupting ps rs) = ps
  parameters_of c = []

  abbrev results_of : CorruptFunc → List ℕ
  results_of (corrupting ps rs) = rs
  results_of c = []

  signatures_match-Matching :
      (i : ℕ) (c : CorruptFunc) (outs : List ℕ)
      → (signatures_match type_name assignable i c outs ≡ none) ↔ Matching c outs
  unfolding signatures_match refused
  signatures_match-Matching i CorruptFunc.nil_corrupt outs = (λ e. cc, λ q. cc)
  signatures_match-Matching i (CorruptFunc.no_function k) outs = (λ e. cc, λ q. cc)
  signatures_match-Matching i (corrupting ps rs) [] =
      (λ e. cc, λ (ps', rs', e, some_out, q, r). absurd (omega (arith, some_out)))
  signatures_match-Matching i (corrupting ps rs) (out ∷ outs) = (
    λ e.
        let (a, b) = (parameters_checked-AllAssignable i ps rs (out ∷ outs)).0 e in
        (ps, rs, refl, omega arith, a, b),
    λ (ps', rs', e, some_out, a, b). (parameters_checked-AllAssignable i ps rs (out ∷ outs)).1 (
      subst (λ l. AllAssignable l (out ∷ outs)) (sym (ap parameters_of e)) a,
      subst (λ l. AllAssignable l (out ∷ outs)) (sym (ap results_of e)) b,
    ),
  )

  not_nil-Matching :
      (i : ℕ) (c : CorruptFunc) (outs : List ℕ)
      → Matching c outs
      → not_nil type_name assignable i c ≡ none
  unfolding not_nil
  not_nil-Matching i CorruptFunc.nil_corrupt outs q = absurd (cc (q.2))
  not_nil-Matching i (CorruptFunc.no_function k) outs q = refl
  not_nil-Matching i (corrupting ps rs) outs q = refl

  module _ (p : Platform) where
    open p use {Float, float_lt, literal}

    in_range :
        (i : ℕ) (x : Float)
        → (probable p i x ≡ none) ↔ ((float_lt x (literal 0 0) || float_lt (literal 1 0) x) ≡ false)
    unfolding probable validate_probability
    in_range i x = checked (float_lt x (literal 0 0) || float_lt (literal 1 0) x) _ _
      where
        checked :
            (b : Bool) (e : Error) (f : Error → Error)
            → (elim (if b then some e else none) [ none ↦ none | some e ↦ some (f e) ] ≡ none)
              ↔ (b ≡ false)
        checked true e f = (λ q. cc, λ q. cc)
        checked false e f = (λ q. refl, λ q. refl)

    -- Inject takes a target (but for the pointer to its function) exactly when its probability is
    -- not below 0 or above 1, and its corrupt function is a function that takes as many values as
    -- the target's function returns, at least one, and returns as many, where the type of every
    -- parameter and of every result is assignable to the type of the target's result at its place.
    pub corruption_checks-Matching :
        (i : ℕ) (t : ValueCorruptionPatchTarget Float)
        → (((corruption_checks type_name assignable p).parameters i t ≡ none)
            × ((corruption_checks type_name assignable p).shape i t ≡ none))
          ↔ (((float_lt t.probability (literal 0 0) || float_lt (literal 1 0) t.probability)
                ≡ false)
              × Matching t.corrupt_func t.outs)
    unfolding corruption_checks corruption_parameters
    corruption_checks-Matching i t = (
      λ (e, s). (
        (in_range i t.probability).0 ((both_none _ _).0 e).0,
        (signatures_match-Matching i t.corrupt_func t.outs).0 s,
      ),
      λ (r, m). (
        (both_none _ _).1
            ((in_range i t.probability).1 r, not_nil-Matching i t.corrupt_func t.outs m),
        (signatures_match-Matching i t.corrupt_func t.outs).1 m,
      ),
    )
