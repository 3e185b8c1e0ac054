-- ===== src/Executor/Once.antt =====
-- executor.go: executeOnce.
use chaoskit.Prelude.{
  ℕ, ◌+◌, true, false, Option, none, some, List, [], ◌∷◌, ◌++◌, if◌then◌else◌, length,
}
use chaoskit.Prelude.Int.{ℤ}
use chaoskit.Text.{Str, codes}
use chaoskit.Errors.{Error, plain, wrapped}
use chaoskit.Exec.{Exec, pure, recover, ◌>>=◌, ◌>>◌}
use chaoskit.Host.{Host, Context, StepFunc}
use chaoskit.ChaosContext.{attach_rand, attach_chaos}
use chaoskit.Recorder.{attach_recorder, forward_panic}
use chaoskit.Execution.{ExecutionResult, step_failed, validator_failed}
use chaoskit.Scenario.{Scenario}
use chaoskit.Executor.{State, call, all_injectors}
use chaoskit.Executor.ChaosBuild.{build_chaos_context}

abbrev pub hook_failed : Str → Str → Error → Error
hook_failed hook name e = wrapped (codes "injector " ++ name ++ hook) e

module _ {W : Type 0} (h : Host W) where
  unfoldable pub before_all : Context W → List ℕ → Exec W (Option Error)
  before_all ctx [] = pure none
  before_all ctx (i ∷ is) = do
    failed ← if h.is_step_injector i then h.before_step i ctx else pure none
    elim failed [
      | none ↦ before_all ctx is
      | some e ↦ pure (some (hook_failed (codes " before step failed: ") (h.injector_name i) e))
    ]

  unfoldable pub after_each : Context W → Option Error → List ℕ → Exec W (Option Error)
  after_each ctx step_err [] = pure step_err
  after_each ctx step_err (i ∷ is) = do
    failed ← if h.is_step_injector i then h.after_step i ctx step_err else pure none
    elim failed [
      | none ↦ after_each ctx step_err is
      | some e ↦ pure (some (hook_failed (codes " after step failed: ") (h.injector_name i) e))
    ]

  -- The last validator wraps first, so that the first becomes the outermost.
  unfoldable pub wrap_all : Str → List ℕ → StepFunc W → StepFunc W
  wrap_all name [] f = f
  wrap_all name (v ∷ vs) f =
      let inner = wrap_all name vs f in
      if h.is_wrapper v then h.wrap_step v (record { name = name; execute = inner }) else inner

  unfoldable pub step_body : Scenario → ℕ → Context W → ℕ → Exec W (Option Error)
  unfolding before_all after_each wrap_all
  step_body sc target ctx step = do
    failed ← before_all ctx (all_injectors sc)
    elim failed [
      | some e ↦ pure (some e)
      | none ↦ wrap_all (h.step_name step) sc.validators (h.execute step) ctx target >>= λ step_err.
          after_each ctx step_err (all_injectors sc)
    ]

  -- The panic is recorded, and becomes the step's error.
  unfoldable pub panic_handler : Scenario → Context W → ℕ → Str → Exec W (Option Error)
  unfolding forward_panic
  panic_handler sc ctx step v = do
    forward_panic h sc.validators ctx
    pure (some (plain (codes "panic in step " ++ h.step_name step ++ codes ": " ++ v)))

  unfoldable pub run_step : Scenario → ℕ → Context W → ℕ → Exec W (Option Error)
  unfolding recover panic_handler step_body
  run_step sc target ctx step = recover (panic_handler sc ctx step) (step_body sc target ctx step)

  -- The index of the first failing step and the result's error.
  unfoldable pub run_steps : Scenario → ℕ → Context W → ℕ → List ℕ → Exec W (Option (ℕ × Error))
  run_steps sc target ctx i [] = pure none
  run_steps sc target ctx i (step ∷ steps) = do
    failed ← run_step sc target ctx step
    elim failed [
      | none ↦ run_steps sc target ctx (i + 1) steps
      | some e ↦ pure (some (i, step_failed (h.step_name step) e))
    ]

  unfoldable pub run_validators : Context W → ℕ → List ℕ → Exec W (Option Error)
  run_validators ctx target [] = pure none
  run_validators ctx target (v ∷ vs) = do
    failed ← h.validate v ctx target
    elim failed [
      | none ↦ run_validators ctx target vs
      | some e ↦ pure (some (validator_failed (h.validator_name v) e))
    ]

  -- The result, with the time since the start.
  unfoldable pub finish : Scenario → ℤ → ℕ → Option Error → Exec W ExecutionResult
  finish sc start n failed = do
    elapsed ← h.since start
    pure (record {
      scenario_name = sc.name;
      success = elim failed [ none ↦ true | some _ ↦ false ];
      error = failed;
      duration = elapsed;
      steps_executed = n;
      timestamp = start;
    })

  -- The steps, then the validators.
  unfoldable pub perform : Scenario → ℕ → Context W → ℤ → Exec W ExecutionResult
  unfolding run_steps run_validators finish
  perform sc target ctx start = do
    failed ← run_steps sc target ctx 0 sc.steps
    elim failed [
      | some (i, e) ↦ finish sc start i (some e)
      | none ↦ run_validators ctx target sc.validators >>= λ e. finish sc start (length sc.steps) e
    ]

  unfoldable pub ensure_rand : Scenario → Context W → Exec W (Context W)
  ensure_rand sc ctx = elim ctx.rand [
    | some rng ↦ pure ctx
    | none ↦ h.new_rand sc.seed >>= λ rng. pure (attach_rand h ctx rng)
  ]

  unfoldable pub execute_once : Scenario → ℕ → Context W → Exec (State W) ExecutionResult
  unfolding call attach_rand attach_recorder attach_chaos build_chaos_context perform ensure_rand
  execute_once sc target ctx = do
    start ← call h.now
    seeded ← call (ensure_rand sc ctx)
    let recording = attach_recorder h seeded sc.validators
    chaos ← build_chaos_context h recording (all_injectors sc)
    call (perform sc target (attach_chaos h recording chaos) start)
