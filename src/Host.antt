-- ===== src/Host.antt =====
-- core.go: the interfaces through which the executor reaches what the user supplies, and the parts
-- of Go's context, time and math/rand packages that it calls. An interface value is a reference (a
-- number); a host gives each method's effect on a state `W`, and answers the type assertions.
use chaoskit.Prelude.{ℕ, Bool, Option, List}
use chaoskit.Prelude.Int.{ℤ}
use chaoskit.Text.{Str}
use chaoskit.Dict.{Dict}
use chaoskit.Errors.{Error}
use chaoskit.Exec.{Exec}

-- chaos_context.go: ChaosContext. The closure over a cancellation provider, which does nothing but
-- call it, is the provider's reference.
pub record Chaos (W : Type 0) : Type 0 where
  pub delay_func : Option (Exec W Bool)
  pub error_func : Option (Exec W (Option Error))
  pub panic_func : Option (Exec W Bool)
  pub network_func : Option (Str → ℤ → Exec W Bool)
  pub cancellation_func : Option ℕ
  pub providers : Dict ℕ

-- A context.Context: the handle that tells whether it is done, and the values that the package
-- attaches to it. The recorder is the list of the scenario's validators.
pub record Context (W : Type 0) : Type 0 where
  pub handle : ℕ
  pub rand : Option ℕ
  pub recorder : Option (List ℕ)
  pub chaos : Option (Chaos W)

abbrev pub StepFunc : Type 0 → Type 0
StepFunc W = Context W → ℕ → Exec W (Option Error)

-- A Step, as WrapStep receives it.
pub record StepValue (W : Type 0) : Type 0 where
  pub name : Str
  pub execute : StepFunc W

pub record Host (W : Type 0) : Type 0 where
  -- ctx.Err(), context.WithTimeout and its cancel function
  pub ctx_err : ℕ → W → Option Error
  pub with_timeout : ℕ → ℤ → Exec W ℕ
  pub cancel : ℕ → Exec W (Unit {0})
  -- time.Now(), time.Since(start), time.Sleep(d)
  pub now : Exec W ℤ
  pub since : ℤ → Exec W ℤ
  pub sleep : ℤ → Exec W (Unit {0})
  -- rand.New(rand.NewSource(seed)); without a seed it is drawn from the global source
  pub new_rand : Option ℤ → Exec W ℕ
  -- Target
  pub setup : ℕ → Context W → Exec W (Option Error)
  pub teardown : ℕ → Context W → Exec W (Option Error)
  -- Step
  pub step_name : ℕ → Str
  pub execute : ℕ → StepFunc W
  -- Injector
  pub injector_name : ℕ → Str
  pub inject : ℕ → Context W → Exec W (Option Error)
  pub stop : ℕ → Context W → Exec W (Option Error)
  -- NetworkInjectorLifecycle
  pub is_network : ℕ → Bool
  pub setup_network : ℕ → Context W → Exec W (Option Error)
  pub teardown_network : ℕ → Context W → Exec W (Option Error)
  -- StepInjector
  pub is_step_injector : ℕ → Bool
  pub before_step : ℕ → Context W → Exec W (Option Error)
  pub after_step : ℕ → Context W → Option Error → Exec W (Option Error)
  -- ChaosDelayProvider, ChaosErrorProvider, ChaosPanicProvider
  pub is_delay_provider : ℕ → Bool
  pub get_chaos_delay : ℕ → Context W → Exec W (ℤ × Bool)
  pub is_error_provider : ℕ → Bool
  pub should_return_error : ℕ → Exec W (Option Error)
  pub is_panic_provider : ℕ → Bool
  pub should_chaos_panic : ℕ → Exec W Bool
  -- ChaosNetworkProvider
  pub is_network_provider : ℕ → Bool
  pub should_apply : ℕ → Str → ℤ → Exec W Bool
  pub network_latency : ℕ → Str → ℤ → Exec W (ℤ × Bool)
  pub should_drop : ℕ → Str → ℤ → Exec W Bool
  -- ChaosContextCancellationProvider; the number is the returned cancel function
  pub is_cancellation_provider : ℕ → Bool
  pub get_chaos_context : ℕ → Context W → Exec W (Context W × ℕ)
  -- ChaosProvider
  pub is_provider : ℕ → Bool
  pub provider_name : ℕ → Str
  pub apply : ℕ → Context W → Exec W Bool
  -- MetricsProvider; a metrics map is a reference
  pub is_metrics_provider : ℕ → Bool
  pub get_metrics : ℕ → Exec W ℕ
  -- Validator, Resettable, StepWrapper
  pub validator_name : ℕ → Str
  pub validate : ℕ → Context W → ℕ → Exec W (Option Error)
  pub is_resettable : ℕ → Bool
  pub reset : ℕ → Exec W (Unit {0})
  pub is_wrapper : ℕ → Bool
  pub wrap_step : ℕ → StepValue W → StepFunc W
  -- PanicRecorder, RecursionRecorder, ErrorRecorder
  pub is_panic_recorder : ℕ → Bool
  pub record_panic : ℕ → Context W → Exec W (Unit {0})
  pub is_recursion_recorder : ℕ → Bool
  pub record_recursion : ℕ → ℤ → Exec W (Unit {0})
  pub is_error_recorder : ℕ → Bool
  pub record_error : ℕ → Context W → Exec W (Unit {0})
