-- ===== src/Executor/Panics.antt =====
-- Panics of steps stay inside an execution (executor.go: the recover of executeOnce).
use chaoskit.Prelude.{ℕ, ◌+◌, none, some, List, [], ◌∷◌, All}
use chaoskit.Exec.Ensures.{
  Ensures, Leaves, Ensures-pure, Ensures-bind, Ensures-if, Ensures-recover, Keeps-Anything,
  Anything,
}
use chaoskit.Host.{Host, Context}
use chaoskit.Recorder.{forward_panic}
use chaoskit.Scenario.{Scenario}
use chaoskit.Executor.Once.{panic_handler, step_body, run_step, run_steps}

module _ {W : Type 0} (h : Host W) (ctx : Context W) where
  -- The validator's RecordPanic does not panic itself.
  abbrev pub RecordsPanics : ℕ → Type 0
  RecordsPanics v = Ensures Anything (h.record_panic v ctx) (λ _. Anything) (λ _. ⊥)

  forward_panic_ensures :
      (vs : List ℕ)
      → All RecordsPanics vs
      → Ensures Anything (forward_panic h vs ctx) (λ _. Anything) (λ _. ⊥)
  unfolding forward_panic
  forward_panic_ensures [] r = Ensures-pure tt (λ w p. tt)
  forward_panic_ensures (v ∷ vs) r =
      Ensures-bind {T = λ _. Anything}
        (Ensures-if (h.is_panic_recorder v) (λ _. r.0) (λ _. Ensures-pure tt (λ w p. tt)))
        (λ _. forward_panic_ensures vs r.1)

  run_step_ensures :
      (sc : Scenario) (target step : ℕ)
      → All RecordsPanics sc.validators
      → Ensures Anything (run_step h sc target ctx step) (λ _. Anything) (λ _. ⊥)
  unfolding run_step panic_handler
  run_step_ensures sc target step r =
      Ensures-recover {U = Anything} (Keeps-Anything (step_body h sc target ctx step)) λ v.
        Ensures-bind {T = λ _. Anything} (forward_panic_ensures sc.validators r)
          λ _. Ensures-pure _ (λ w p. tt)

  run_steps_ensures :
      (sc : Scenario) (target i : ℕ) (steps : List ℕ)
      → All RecordsPanics sc.validators
      → Ensures Anything (run_steps h sc target ctx i steps) (λ _. Anything) (λ _. ⊥)
  unfolding run_steps
  run_steps_ensures sc target i [] r = Ensures-pure none (λ w p. tt)
  run_steps_ensures sc target i (step ∷ steps) r =
      Ensures-bind {T = λ _. Anything} (run_step_ensures sc target step r) (elim [
        | none ↦ run_steps_ensures sc target (i + 1) steps r
        | some e ↦ Ensures-pure _ (λ w p. tt)
      ])

  -- The steps of an execution never panic, whatever the steps themselves, the wrappers of the
  -- validators and the hooks of the injectors do: every panic ends in a result of the loop over the
  -- steps, provided that RecordPanic of the validators does not panic.
  pub run_steps-contained :
      (sc : Scenario) (target : ℕ) (w : W)
      → All RecordsPanics sc.validators
      → Leaves (λ _. Anything) (λ _. ⊥) (run_steps h sc target ctx 0 sc.steps w)
  run_steps-contained sc target w r = (run_steps_ensures sc target 0 sc.steps r).at w tt
