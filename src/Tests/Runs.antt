-- ===== src/Tests/Runs.antt =====
-- Runs of the executor in the small world.
use chaoskit.Prelude.{ℕ, ◌≤◌, ◌≡◌, refl, ◌+◌, some, none, inl, inr, [], ◌∷◌, length, arith, Any}
use chaoskit.Prelude.Int.{pos}
use chaoskit.Errors.{plain, ok}
use chaoskit.Text.{codes}
use chaoskit.Report.{Report}
use chaoskit.Execution.{ExecutionResult}
use chaoskit.Executor.{State, continue_on_failure}
use chaoskit.Executor.Run.{run}
use chaoskit.Executor.Books.{fresh, Balanced, run-Balanced, run-metrics_exact}
use chaoskit.Thresholds.{memory_limit, default_thresholds, validate}
use chaoskit.Reporter.Failures.{validator_severity, is_listed}
use chaoskit.Text.{str_eq}
use chaoskit.Reporter.Names.{normalize_validator_name}
use chaoskit.Reporter.Judge.{get_verdict}
use chaoskit.Reporter.Judge.Decision.{IsJudged}
use chaoskit.Reporter.Orders.{insertion_order}
use chaoskit.Metrics.Exact.{counted}
use chaoskit.Reporter.Judge.{successes, failures}
use chaoskit.Pipeline.{BlamesCritical, run-get_verdict, run-critical_fails}
use chaoskit.Exec.{◌>>=◌}
use chaoskit.Verdict.{fail, exit_code}
use chaoskit.Executor.{call, all_injectors, new_executor}
use chaoskit.Executor.Loop.{run_repeated, run_repeated_from, iterate, reset_validators}
use chaoskit.Executor.Once.{execute_once, run_step}
use chaoskit.Executor.Run.{setup_networks, teardown_networks, start_injectors, stop_injectors}
use chaoskit.Exec.{defer}
use chaoskit.Execution.{validator_failed}
use chaoskit.Pipeline.{IsReported}
use chaoskit.Prelude.{Option, suc, true, false, subst, sym}
use chaoskit.Errors.{Error}
use chaoskit.Tests.{
  bench, thrice, background, thousandths, insertion_laws, memory_limit-IsPlain,
  memory_limit-IsUnambiguous,
}

abbrev end_state : State ℕ
end_state = (run bench continue_on_failure 0 thrice background (fresh bench thrice 0)).1

abbrev outcome : ℕ → Option Error → ExecutionResult
outcome n e = record {
  scenario_name = codes "thrice";
  success = elim e [ none ↦ true | some _ ↦ false ];
  error = e;
  duration = pos (suc n);
  steps_executed = 1;
  timestamp = pos n;
}

abbrev too_much : Error
too_much = plain (codes "too much")

-- The second execution fails.
end_results :
    end_state.reporter.results
    ≡ outcome 0 none
      ∷ outcome 1 (some (validator_failed memory_limit too_much))
      ∷ outcome 2 none
      ∷ []
unfolding run ◌>>=◌ call defer setup_networks all_injectors teardown_networks start_injectors
    stop_injectors run_repeated run_repeated_from iterate reset_validators execute_once run_step
    new_executor
end_results = refl

memory_limit-IsReported : IsReported memory_limit
memory_limit-IsReported = record {
  plain = memory_limit-IsPlain;
  unambiguous = memory_limit-IsUnambiguous;
}

valid : validate thousandths (default_thresholds thousandths) ≡ ok tt
unfolding validate default_thresholds
valid = refl

executions : 1 ≤ length end_state.reporter.results
executions = rw end_results (omega arith)

run-get_verdict_example :
    (report : Report ℕ) × (get_verdict thousandths insertion_order
        (pos 9)
        end_state.reporter
        (default_thresholds thousandths)
      ≡ ok report)
    × IsJudged thousandths
        (default_thresholds thousandths)
        end_state.reporter.results
        report.verdict
    × (end_state.metrics.total_executions ≡ counted (report.success_count + report.failure_count))
run-get_verdict_example =
    run-get_verdict bench thousandths insertion_order insertion_laws (pos 9)
      (default_thresholds thousandths) continue_on_failure 0 thrice background 0 valid
      (memory_limit-IsReported, tt) executions

blames :
    BlamesCritical
      (default_thresholds thousandths)
      (outcome 1 (some (validator_failed memory_limit too_much)))
unfolding default_thresholds validator_severity is_listed str_eq normalize_validator_name
blames = record {
  name = memory_limit;
  cause = too_much;
  plain = memory_limit-IsReported.plain;
  failed = refl;
  critical = refl;
}

run-critical_fails_example :
    (report : Report ℕ) × (get_verdict thousandths insertion_order
        (pos 9)
        end_state.reporter
        (default_thresholds thousandths)
      ≡ ok report)
    × (report.verdict ≡ fail)
    × (exit_code report.verdict ≡ 1)
run-critical_fails_example =
    run-critical_fails bench thousandths insertion_order insertion_laws (pos 9)
      (default_thresholds thousandths) continue_on_failure 0 thrice background 0 valid
      (memory_limit-IsReported, tt)
      (subst (Any (BlamesCritical (default_thresholds thousandths))) (sym end_results)
        (inr (inl blames)))

run-Balanced_example : Balanced bench thrice end_state
run-Balanced_example = run-Balanced bench thrice continue_on_failure 0 background 0

run-metrics_exact_example :
    (end_state.metrics.total_executions ≡ pos (length end_state.reporter.results))
    × (end_state.metrics.success_count ≡ pos (successes end_state.reporter.results))
    × (end_state.metrics.failure_count ≡ pos (failures end_state.reporter.results))
    × (successes end_state.reporter.results + failures end_state.reporter.results
        ≡ length end_state.reporter.results)
run-metrics_exact_example =
    run-metrics_exact bench thrice continue_on_failure 0 background 0 (rw end_results (omega arith))
