-- ===== src/Executor/Outcomes.antt =====
-- What the result of one execution says, whatever the user's code does (executor.go: executeOnce).
use chaoskit.Prelude.{
  ℕ, zero, suc, ◌+◌, ◌≡◌, refl, subst, ◌⊎◌, inl, inr, true, false, Option, none, some, List, [],
  ◌∷◌, arith, length, Any,
}
use chaoskit.Prelude.Int.{ℤ}
use chaoskit.Text.{Str}
use chaoskit.Errors.{Error}
use chaoskit.Exec.Ensures.{
  Ensures, Ensures-pure, Ensures-bind, Ensures-weaken, Ensures-given, Keeps-Anything, Anything,
}
use chaoskit.Host.{Host, Context}
use chaoskit.Execution.{ExecutionResult, step_failed, validator_failed}
use chaoskit.Scenario.{Scenario}
use chaoskit.Executor.Once.{run_step, run_steps, run_validators, finish, perform}

abbrev pub get_elem? : List ℕ → ℕ → Option ℕ
get_elem? [] i = none
get_elem? (x ∷ xs) zero = some x
get_elem? (x ∷ xs) (suc i) = get_elem? xs i

module _ {W : Type 0} (h : Host W) where
  -- The error is the one of the step at place `i`.
  pub record StepBlamed (steps : List ℕ) (i : ℕ) (e : Error) : Type 0 where
    pub step : ℕ
    pub cause : Error
    pub place : get_elem? steps i ≡ some step
    pub shape : e ≡ step_failed (h.step_name step) cause

  -- The error is the one of a validator in the list.
  pub record ValidatorBlamed (vs : List ℕ) (e : Error) : Type 0 where
    pub name : Str
    pub cause : Error
    pub place : Any (λ v. h.validator_name v ≡ name) vs
    pub shape : e ≡ validator_failed name cause

  abbrev StepsEnd : List ℕ → ℕ → Option (ℕ × Error) → Type 0
  StepsEnd steps i none = Unit {0}
  StepsEnd steps i (some (j, e)) = (k : ℕ) × (j ≡ i + k) × StepBlamed steps k e

  abbrev ValidatorsEnd : List ℕ → Option Error → Type 0
  ValidatorsEnd vs none = Unit {0}
  ValidatorsEnd vs (some e) = ValidatorBlamed vs e

  run_steps-StepsEnd :
      (sc : Scenario) (target : ℕ) (ctx : Context W) (i : ℕ) (steps : List ℕ)
      → Ensures Anything (run_steps h sc target ctx i steps) (λ o _. StepsEnd steps i o) Anything
  unfolding run_steps
  run_steps-StepsEnd sc target ctx i [] = Ensures-pure none (λ s _. tt)
  run_steps-StepsEnd sc target ctx i (step ∷ steps) =
      Ensures-bind (Keeps-Anything (run_step h sc target ctx step)) (elim [
        | some e ↦
            Ensures-pure _
              λ s _. (0, omega arith, record { step = step; cause = e; place = refl; shape = refl })
        | none ↦
            Ensures-weaken (run_steps-StepsEnd sc target ctx (i + 1) steps) (λ s p. p) later
              (λ s p. p)
      ])
    where
      later :
          (o : Option (ℕ × Error)) (s : W) → StepsEnd steps (i + 1) o → StepsEnd (step ∷ steps) i o
      later none s l = tt
      later (some (j, e)) s (k, p, b) = (
        suc k,
        omega arith,
        record { step = b.step; cause = b.cause; place = b.place; shape = b.shape },
      )

  run_validators-ValidatorsEnd :
      (ctx : Context W) (target : ℕ) (vs : List ℕ)
      → Ensures Anything (run_validators h ctx target vs) (λ o _. ValidatorsEnd vs o) Anything
  unfolding run_validators
  run_validators-ValidatorsEnd ctx target [] = Ensures-pure none (λ s _. tt)
  run_validators-ValidatorsEnd ctx target (v ∷ vs) =
      Ensures-bind (Keeps-Anything (h.validate v ctx target)) (elim [
        | some e ↦
            Ensures-pure _
              λ s _. record { name = h.validator_name v; cause = e; place = inl refl; shape = refl }
        | none ↦
            Ensures-weaken (run_validators-ValidatorsEnd ctx target vs) (λ s p. p) later (λ s p. p)
      ])
    where
      later : (o : Option Error) (s : W) → ValidatorsEnd vs o → ValidatorsEnd (v ∷ vs) o
      later none s l = tt
      later (some e) s b = record {
        name = b.name;
        cause = b.cause;
        place = inr b.place;
        shape = b.shape;
      }

  -- Success without an error after all the steps; or the failure of the step at which the
  -- execution stopped; or, after all the steps, the failure of a validator of the scenario.
  abbrev Explained : Scenario → ExecutionResult → Type 0
  Explained sc r =
      ((r.success ≡ true) × (r.error ≡ none) × (r.steps_executed ≡ length sc.steps))
      ⊎ ((r.success ≡ false)
          × (e : Error) × (r.error ≡ some e)
          × StepBlamed sc.steps r.steps_executed e)
      ⊎ ((r.success ≡ false)
          × (e : Error) × (r.error ≡ some e)
          × (r.steps_executed ≡ length sc.steps)
          × ValidatorBlamed sc.validators e)

  pub record IsExecution (sc : Scenario) (r : ExecutionResult) : Type 0 where
    pub scenario : r.scenario_name ≡ sc.name
    pub explained : Explained sc r

  -- The result that `finish` makes, whatever the time that has passed.
  abbrev finished : Scenario → ℤ → ℕ → Option Error → ℤ → ExecutionResult
  finished sc start n failed elapsed = record {
    scenario_name = sc.name;
    success = elim failed [ none ↦ true | some _ ↦ false ];
    error = failed;
    duration = elapsed;
    steps_executed = n;
    timestamp = start;
  }

  finish_ensures :
      (sc : Scenario) (start : ℤ) (n : ℕ) (failed : Option Error)
      → ((elapsed : ℤ) → Explained sc (finished sc start n failed elapsed))
      → Ensures Anything (finish h sc start n failed) (λ r _. IsExecution sc r) Anything
  unfolding finish
  finish_ensures sc start n failed x =
      Ensures-bind (Keeps-Anything (h.since start))
        λ elapsed. Ensures-pure _ λ s _. record { scenario = refl; explained = x elapsed }

  validated :
      (sc : Scenario) (start : ℤ) (o : Option Error)
      → ValidatorsEnd sc.validators o
      → Ensures Anything (finish h sc start (length sc.steps) o) (λ r _. IsExecution sc r) Anything
  validated sc start none b =
      finish_ensures sc start (length sc.steps) none (λ _. inl (refl, refl, refl))
  validated sc start (some e) b =
      finish_ensures sc start (length sc.steps) (some e) (λ _. inr (inr (refl, e, refl, refl, b)))

  stepped :
      (sc : Scenario) (start : ℤ) (i : ℕ) (e : Error)
      → StepsEnd sc.steps 0 (some (i, e))
      → Ensures Anything (finish h sc start i (some e)) (λ r _. IsExecution sc r) Anything
  stepped sc start i e (k, p, b) =
      finish_ensures sc start i (some e)
        (λ _. inr (inl (refl, e, refl, subst (λ j. StepBlamed sc.steps j e) (omega arith) b)))

  pub perform-IsExecution :
      (sc : Scenario) (target : ℕ) (ctx : Context W) (start : ℤ)
      → Ensures Anything (perform h sc target ctx start) (λ r _. IsExecution sc r) Anything
  unfolding perform
  perform-IsExecution sc target ctx start =
      Ensures-bind (run_steps-StepsEnd sc target ctx 0 sc.steps) (elim [
        | some (i, e) ↦ Ensures-given (stepped sc start i e)
        | none ↦
            Ensures-bind
              (Ensures-weaken (run_validators-ValidatorsEnd ctx target sc.validators) (λ s _. tt)
                (λ o s p. p) (λ s p. p))
              λ o. Ensures-given (validated sc start o)
      ])
