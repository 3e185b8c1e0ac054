-- ===== src/Executor/Books.antt =====
-- The executor's two collectors after a run (executor.go, metrics.go, reporter.go).
use chaoskit.Prelude.{ℕ, ◌+◌, ◌<◌, ◌^◌, ◌≡◌, length, refl, [], ◌∷◌, All, All-append}
use chaoskit.Exec.Ensures.{Keeps, Keeps-state}
use chaoskit.Host.{Host, Context}
use chaoskit.Execution.{ExecutionResult}
use chaoskit.Metrics.Exact.{
  Agrees, record_execution-Agrees, record_injector_metrics-Agrees, counted, Agrees-exact,
}
use chaoskit.Reporter.Judge.{successes, failures, total_duration}
use chaoskit.Prelude.Int.{pos}
use chaoskit.Reporter.Judge.Counts.{successes-failures}
use chaoskit.Scenario.{Scenario}
use chaoskit.Executor.{State, FailurePolicy, record_result, new_executor}
use chaoskit.Executor.Outcomes.{IsExecution}
use chaoskit.Executor.Invariants.{IsInvariant, run-Keeps}
use chaoskit.Executor.Run.{run}

-- The metrics have counted exactly the reporter's results, each of which is the result of an
-- execution of the scenario.
pub record Balanced {W : Type 0} (h : Host W) (sc : Scenario) (s : State W) : Type 0 where
  pub agrees : Agrees s.metrics s.reporter.results
  pub executions : All (IsExecution h sc) s.reporter.results

module _ {W : Type 0} (h : Host W) (sc : Scenario) where
  record_result-Balanced :
      (r : ExecutionResult) → IsExecution h sc r → Keeps (Balanced h sc) (record_result r)
  unfolding record_result
  record_result-Balanced r x = record {
    at = λ s b. record {
      agrees = record_execution-Agrees s.metrics s.reporter.results r b.agrees;
      executions = All-append (IsExecution h sc) s.reporter.results (r ∷ []) b.executions (x, tt);
    };
  }

  Balanced-IsInvariant : IsInvariant h sc (Balanced h sc)
  Balanced-IsInvariant = record {
    internal = record {
      any_world = λ s w b. record { agrees = b.agrees; executions = b.executions };
      any_metrics = λ s name v b. record {
        agrees = record_injector_metrics-Agrees s.metrics name v s.reporter.results b.agrees;
        executions = b.executions;
      };
    };
    recorded = record_result-Balanced;
  }

  -- The state in which a new executor begins, in any world.
  abbrev pub fresh : W → State W
  fresh w = record {
    world = w;
    metrics = (new_executor []).metrics;
    reporter = (new_executor []).reporter;
  }

  fresh-Balanced : (w : W) → Balanced h sc (fresh w)
  unfolding new_executor counted successes failures total_duration
  fresh-Balanced w = record {
    agrees = record { executions = refl; success = refl; failure = refl; durations = refl };
    executions = tt;
  }

  -- Whatever the user's code does, after the run of a new executor, also one that panics or is cut
  -- off, the metrics have counted exactly the reporter's results, in 64-bit ints, and each of these
  -- is the result of an execution of the scenario: a success after all steps, the error of the step
  -- at which it stopped, or the error of a validator after all steps.
  pub run-Balanced :
      (policy : FailurePolicy) (fuel : ℕ) (ctx : Context W) (w : W)
      → Balanced h sc (run h policy fuel sc ctx (fresh w)).1
  run-Balanced policy fuel ctx w =
      Keeps-state (run-Keeps h sc Balanced-IsInvariant policy fuel ctx) (fresh w) (fresh-Balanced w)

  -- After the run of a new executor, also one that panics or is cut off, whatever the user's code
  -- does: where the reporter has fewer than 2^63 results, the metrics have their exact number, and
  -- those of the successes and of the failures, which add up to it.
  pub run-metrics_exact :
      (policy : FailurePolicy) (fuel : ℕ) (ctx : Context W) (w : W)
      → length (run h policy fuel sc ctx (fresh w)).1.reporter.results < 2 ^ 63
      → ((run h policy fuel sc ctx (fresh w)).1.metrics.total_executions
          ≡ pos (length (run h policy fuel sc ctx (fresh w)).1.reporter.results))
        × ((run h policy fuel sc ctx (fresh w)).1.metrics.success_count
            ≡ pos (successes (run h policy fuel sc ctx (fresh w)).1.reporter.results))
        × ((run h policy fuel sc ctx (fresh w)).1.metrics.failure_count
            ≡ pos (failures (run h policy fuel sc ctx (fresh w)).1.reporter.results))
        × (successes (run h policy fuel sc ctx (fresh w)).1.reporter.results
              + failures (run h policy fuel sc ctx (fresh w)).1.reporter.results
            ≡ length (run h policy fuel sc ctx (fresh w)).1.reporter.results)
  run-metrics_exact policy fuel ctx w b =
      let rs = (run h policy fuel sc ctx (fresh w)).1.reporter.results in
      let (total, good, bad) = Agrees-exact _ rs (run-Balanced policy fuel ctx w).agrees b in
      (total, good, bad, successes-failures rs)
