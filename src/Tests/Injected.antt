-- ===== src/Tests/Injected.antt =====
-- The injectors of a run in the world that counts those which run.
use chaoskit.Prelude.{
  ℕ, ◌≡◌, refl, ap, ◌==◌, Bool-cases, false, inl, inr, none, some, List, [], ◌∷◌, ◌++◌, drop,
}
use chaoskit.Prelude.Int.{pos}
use chaoskit.Exec.{◌>>=◌, Exec, Outcome, pure}
use chaoskit.Exec.Ensures.{Ensures, Leaves, Anything}
use chaoskit.Executor.{continue_on_failure, call, all_injectors, record_result}
use chaoskit.Executor.Books.{fresh}
use chaoskit.Executor.ChaosBuild.{no_chaos, build_chaos_context, collect_metrics}
use chaoskit.Executor.Assembly.{Assembled, build_chaos_context-Assembled}
use chaoskit.Executor.Lifecycle.{Startable, run_started-stops}
use chaoskit.Executor.Loop.{iterate, reset_validators, run_repeated, run_repeated_from}
use chaoskit.Executor.Once.{execute_once, run_step}
use chaoskit.Executor.Run.{run_loop, run_started}
use chaoskit.Injectors.Composite.{
  CompositeInjector, inject_composite, stop_composite, Injected, composite-Running,
}
use chaoskit.Injectors.Chance.{
  ErrorInjector, stop_errors, inject_errors, should_return_error, already_stopped, Step, Reach,
  stop_errors-stays,
}
use chaoskit.Tests.{ledger, anywhere, injected, thousandths, bench, background}

abbrev Running : List ℕ → List ℕ → Type 0
Running l w = w ≡ l

promises : Startable ledger anywhere Running
promises = record {
  starts = λ i l. record {
    at = λ w p. elim (Bool-cases (i == 2)) [
      | inl e ↦ rw e p
      | inr e ↦ rw e (ap (λ m. m ++ i ∷ []) p)
    ];
  };
  stops = λ i l. record { at = λ w p. ap (drop 1) p };
}

loop_keeps :
    (l : List ℕ)
    → Ensures
        (λ s. Running l s.world)
        (run_loop ledger continue_on_failure injected 0 0 anywhere)
        (λ _ s. Running l s.world)
        (λ s. Running l s.world)
unfolding run_loop run_repeated run_repeated_from iterate ◌>>=◌ call reset_validators execute_once
    run_step all_injectors build_chaos_context record_result collect_metrics
loop_keeps l = record { at = λ s p. p }

run_started-stops_example :
    Leaves
      (λ _ s'. Running [] s'.world)
      (λ s'. Running [] s'.world)
      (run_started ledger continue_on_failure injected 0 0 anywhere (fresh ledger injected []))
run_started-stops_example =
    run_started-stops ledger anywhere Running promises continue_on_failure injected 0 0
      (fresh ledger injected []) loop_keeps refl

abbrev pair : CompositeInjector
pair = record { name = []; injectors = 1 ∷ 2 ∷ [] }

composite-Running_example :
    Ensures
      (Running [])
      (inject_composite ledger pair anywhere)
      (Injected ledger anywhere Running promises [] (1 ∷ 2 ∷ []))
      (λ _. ⊥)
    × Ensures
        (Running (1 ∷ 2 ∷ []))
        (stop_composite ledger pair anywhere)
        (λ _. Running [])
        (λ _. ⊥)
composite-Running_example = composite-Running ledger anywhere Running promises pair

-- Half of the calls fail.
abbrev faulty : ErrorInjector ℕ
faulty = record {
  name = [];
  probability = 500;
  error_msg = [];
  error_count = pos 0;
  stopped = false;
  rng = some 0;
}

abbrev half : ℕ → Exec ℕ ℕ
half rng = pure 499

abbrev stopped_twice : ErrorInjector ℕ
stopped_twice = stop_errors thousandths (stop_errors thousandths faulty)

stopped_again : Reach thousandths bench half (stop_errors thousandths faulty) stopped_twice
stopped_again =
    Reach.there _ _ _ (Step.stopping (stop_errors thousandths faulty)) (Reach.here stopped_twice)

stop_errors-stays_example :
    (should_return_error thousandths bench half stopped_twice 0 ≡ (Outcome.returns none, 0))
    × (inject_errors thousandths bench half stopped_twice background 0
        ≡ (Outcome.returns (some already_stopped, stopped_twice), 0))
stop_errors-stays_example =
    stop_errors-stays thousandths bench half faulty stopped_twice background 0 stopped_again

build_chaos_context-Assembled_example :
    Leaves
      (λ c _. Assembled ledger anywhere (no_chaos ledger) (1 ∷ 2 ∷ []) c)
      Anything
      (build_chaos_context ledger anywhere (1 ∷ 2 ∷ []) (fresh ledger injected []))
build_chaos_context-Assembled_example =
    build_chaos_context-Assembled ledger anywhere (1 ∷ 2 ∷ []) (fresh ledger injected [])
