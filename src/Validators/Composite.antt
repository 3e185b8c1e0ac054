-- ===== src/Validators/Composite.antt =====
-- validators/composite.go: several validators as one. Each validator is a reference, `severity` is
-- its method Severity, and Host has the others.
use chaoskit.Prelude.{
  ℕ, ◌≤◌, ltb, ◌≡◌, refl, ◌⊎◌, inl, inr, sym, ap, subst, ◌&&◌, Option, none, some, List, [], ◌∷◌,
  arith, if◌then◌else◌,
}
use chaoskit.Text.{Str}
use chaoskit.Errors.{Error}
use chaoskit.Exec.{Exec, Outcome, returns, panics, continue, pure, ◌>>=◌}
use chaoskit.Host.{Host, Context}
use chaoskit.Verdict.{Severity, critical, warning, info, severity_eq}
use chaoskit.Executor.Once.{run_validators}
use chaoskit.Execution.{validator_failed}

pub record CompositeValidator : Type 0 where
  pub name : Str
  pub validators : List ℕ

unfoldable pub composite : Str → List ℕ → CompositeValidator
composite name validators = record { name = name; validators = validators }

-- The loop, with the greatest severity so far.
unfoldable pub max_severity : (ℕ → Severity) → Severity → List ℕ → Severity
max_severity severity max [] = max
max_severity severity max (v ∷ vs) =
    let raised =
      if severity_eq (severity v) warning && severity_eq max info then warning else max in
    let rest = max_severity severity raised vs in
    if severity_eq (severity v) critical then critical else rest

unfoldable pub composite_severity : (ℕ → Severity) → CompositeValidator → Severity
unfolding max_severity
composite_severity severity c = max_severity severity info c.validators

module _ {W : Type 0} (h : Host W) where
  unfoldable pub validate_all : Context W → ℕ → List ℕ → Exec W (Option Error)
  validate_all ctx target [] = pure none
  validate_all ctx target (v ∷ vs) = do
    failed ← h.validate v ctx target
    elim failed [
      | none ↦ validate_all ctx target vs
      | some e ↦ pure (some (validator_failed (h.validator_name v) e))
    ]

  unfoldable pub validate_composite : CompositeValidator → Context W → ℕ → Exec W (Option Error)
  unfolding validate_all
  validate_composite c ctx target = validate_all ctx target c.validators

same_loop :
    {W : Type 0} (h : Host W) (ctx : Context W) (target : ℕ) (vs : List ℕ)
    → validate_all h ctx target vs ≡ run_validators h ctx target vs
unfolding validate_all run_validators
same_loop h ctx target [] = refl
same_loop {W} h ctx target (v ∷ vs) =
    ap
      (λ (rest : Exec W (Option Error)). h.validate v ctx target >>= λ failed. elim failed [
        | none ↦ rest
        | some e ↦ pure (some (validator_failed (h.validator_name v) e))
      ])
      (same_loop h ctx target vs)

-- Critical > Warning > Info
abbrev pub rank : Severity → ℕ
rank critical = 2
rank warning = 1
rank _ = 0

abbrev pub larger : ℕ → ℕ → ℕ
larger a b = if ltb a b then b else a

abbrev pub greatest : (ℕ → Severity) → List ℕ → ℕ → ℕ
greatest severity [] n = n
greatest severity (v ∷ vs) n = greatest severity vs (larger n (rank (severity v)))

abbrev pub IsLow : Severity → Type 0
IsLow s = (s ≡ warning) ⊎ (s ≡ info)

rank-≤-2 : (s : Severity) → rank s ≤ 2
rank-≤-2 critical = omega arith
rank-≤-2 warning = omega arith
rank-≤-2 info = omega arith
rank-≤-2 (Severity.other n) = omega arith

greatest_top : (severity : ℕ → Severity) (vs : List ℕ) → greatest severity vs 2 ≡ 2
greatest_top severity [] = refl
greatest_top severity (v ∷ vs) = ground (arith, rank-≤-2 (severity v), greatest_top severity vs)

as_before :
    (severity : ℕ → Severity) (max : Severity) (vs : List ℕ)
    → IsLow max
    → ((m : Severity) → IsLow m → rank (max_severity severity m vs) ≡ greatest severity vs (rank m))
    → rank (max_severity severity max vs) ≡ greatest severity vs (larger (rank max) 0)
as_before severity max vs (inl e) k = rw e (k warning (inl refl))
as_before severity max vs (inr e) k = rw e (k info (inr refl))

one_more :
    (severity : ℕ → Severity) (max s : Severity) (vs : List ℕ)
    → IsLow max
    → ((m : Severity) → IsLow m → rank (max_severity severity m vs) ≡ greatest severity vs (rank m))
    → rank (
        if severity_eq s critical
        then critical
        else max_severity severity
            (if severity_eq s warning && severity_eq max info then warning else max)
            vs)
      ≡ greatest severity vs (larger (rank max) (rank s))
unfolding severity_eq
one_more severity max critical vs l k = elim l [
  | inl e ↦ rw e (sym (greatest_top severity vs))
  | inr e ↦ rw e (sym (greatest_top severity vs))
]
one_more severity max warning vs l k = elim l [
  | inl e ↦ rw e (k warning (inl refl))
  | inr e ↦ rw e (k warning (inl refl))
]
one_more severity max info vs l k = as_before severity max vs l k
one_more severity max (Severity.other n) vs l k = as_before severity max vs l k

rank-max_severity :
    (severity : ℕ → Severity) (max : Severity) (vs : List ℕ)
    → IsLow max
    → rank (max_severity severity max vs) ≡ greatest severity vs (rank max)
unfolding max_severity
rank-max_severity severity max [] l = refl
rank-max_severity severity max (v ∷ vs) l =
    one_more severity max (severity v) vs l (λ m. rank-max_severity severity m vs)

-- A composite's severity is the greatest of its validators', Info where it has none.
pub rank-composite_severity :
    (severity : ℕ → Severity) (c : CompositeValidator)
    → rank (composite_severity severity c) ≡ greatest severity c.validators 0
unfolding composite_severity
rank-composite_severity severity c = rank-max_severity severity info c.validators (inr refl)

-- What validators do in a row, from a world on: each is asked in the world that the one before it has
-- left, up to the first that fails, whose error is wrapped, or that panics. The last index is the
-- outcome, with the world at the end.
pub data Checked {W : Type 0} (h : Host W) (ctx : Context W) (target : ℕ)
    : List ℕ → W → Outcome (Option Error) × W → Type 0 where
  all_pass : (w : W) → Checked h ctx target [] w (returns none, w)
  passes :
      (v : ℕ) (vs : List ℕ) (w w' : W) (x : Outcome (Option Error) × W)
      → h.validate v ctx target w ≡ (returns none, w')
      → Checked h ctx target vs w' x
      → Checked h ctx target (v ∷ vs) w x
  fails :
      (v : ℕ) (vs : List ℕ) (w w' : W) (e : Error)
      → h.validate v ctx target w ≡ (returns (some e), w')
      → Checked h ctx target
          (v ∷ vs)
          w
          (returns (some (validator_failed (h.validator_name v) e)), w')
  breaks :
      (v : ℕ) (vs : List ℕ) (w w' : W) (text : Str)
      → h.validate v ctx target w ≡ (panics text, w')
      → Checked h ctx target (v ∷ vs) w (panics text, w')

module _ {W : Type 0} (h : Host W) (ctx : Context W) (target : ℕ) where
  after_first :
      (v : ℕ) (vs : List ℕ) (w : W) (x : Outcome (Option Error) × W)
      → h.validate v ctx target w ≡ x
      → ((w' : W) → Checked h ctx target vs w' (validate_all h ctx target vs w'))
      → Checked h ctx target (v ∷ vs) w (
          continue
            (λ failed. elim failed [
              | none ↦ validate_all h ctx target vs
              | some e ↦ pure (some (validator_failed (h.validator_name v) e))
            ])
            x.0
            x.1)
  after_first v vs w (returns none, w') e rest = Checked.passes v vs w w' _ e (rest w')
  after_first v vs w (returns (some f), w') e rest = Checked.fails v vs w w' f e
  after_first v vs w (panics text, w') e rest = Checked.breaks v vs w w' text e

  validate_all-Checked :
      (vs : List ℕ) (w : W) → Checked h ctx target vs w (validate_all h ctx target vs w)
  unfolding validate_all ◌>>=◌
  validate_all-Checked [] w = Checked.all_pass w
  validate_all-Checked (v ∷ vs) w =
      after_first v vs w (h.validate v ctx target w) refl (validate_all-Checked vs)

  -- A composite, and an execution for the validators of its scenario, asks its validators in order,
  -- each in the world that the one before it has left, up to the first failure, whose error it wraps
  -- with the validator's name, or up to a panic.
  pub validate_composite-Checked :
      (c : CompositeValidator) (w : W)
      → Checked h ctx target c.validators w (validate_composite h c ctx target w)
        × Checked h ctx target c.validators w (run_validators h ctx target c.validators w)
  unfolding validate_composite
  validate_composite-Checked c w = (
    validate_all-Checked c.validators w,
    subst (λ m. Checked h ctx target c.validators w (m w)) (same_loop h ctx target c.validators)
        (validate_all-Checked c.validators w),
  )
