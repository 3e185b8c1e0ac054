-- ===== src/Tests/Tested.antt =====
-- RunChaos on a scenario of one step.
use chaoskit.Prelude.{ℕ, ◌≤◌, ◌≡◌, refl, ◌||◌, true, none, some, List, [], ◌∷◌, length, arith}
use chaoskit.Prelude.Int.{pos}
use chaoskit.Text.{codes}
use chaoskit.Exec.{returns, defer, ◌>>=◌}
use chaoskit.Host.{Host}
use chaoskit.Scenario.{Scenario, new_scenario, with_target, step, repeat}
use chaoskit.Thresholds.{validate, default_thresholds}
use chaoskit.Reporter.Orders.{insertion_order}
use chaoskit.Reporter.Judge.Decision.{deserved}
use chaoskit.Executor.{State, fail_fast, call, all_injectors, new_executor}
use chaoskit.Executor.Run.{run, setup_networks, teardown_networks, start_injectors, stop_injectors}
use chaoskit.Executor.Loop.{run_repeated, run_repeated_from, iterate, reset_validators}
use chaoskit.Executor.Once.{execute_once, run_step}
use chaoskit.Executor.Books.{fresh}
use chaoskit.Testing.{TestLog, ChaosTestOption, config_of, test_scenario, run_chaos, with_repeat}
use chaoskit.Testing.Verdicts.{is_some, is_fail, run_chaos-fails}
use chaoskit.Tests.{thousandths, insertion_laws, idle, background}

abbrev still : Host ℕ
still = idle

abbrev options : List (ChaosTestOption thousandths)
options = with_repeat thousandths (pos 2) ∷ []

abbrev build : Scenario → Scenario
build sc = step sc 4

abbrev tested : Scenario
tested = test_scenario thousandths (codes "tested") (some 0) build (config_of thousandths options)

abbrev end_state : State ℕ
end_state = (run still fail_fast 0 tested background (fresh still tested 7)).1

ran :
    run still fail_fast 0 tested background (fresh still tested 7)
    ≡ (returns (some none), end_state)
unfolding run ◌>>=◌ call defer setup_networks all_injectors teardown_networks start_injectors
    stop_injectors run_repeated run_repeated_from iterate reset_validators execute_once run_step
    new_executor test_scenario config_of with_repeat new_scenario with_target step repeat
ran = refl

executions : 1 ≤ length end_state.reporter.results
unfolding run ◌>>=◌ call defer setup_networks all_injectors teardown_networks start_injectors
    stop_injectors run_repeated run_repeated_from iterate reset_validators execute_once run_step
    new_executor test_scenario config_of with_repeat new_scenario with_target step repeat
executions = omega arith

run_chaos-fails_example :
    (T : TestLog) × (run_chaos thousandths still insertion_order
        (pos 9)
        true
        0
        (codes "tested")
        (some 0)
        build
        background
        options
        7
      ≡ (returns (some T), end_state))
    × (T.failed_now ≡ (
        is_some none
        || is_fail
            (deserved thousandths (default_thresholds thousandths) end_state.reporter.results)))
unfolding config_of with_repeat validate default_thresholds test_scenario new_scenario with_target
    step repeat
run_chaos-fails_example =
    run_chaos-fails still thousandths insertion_order insertion_laws (pos 9) true 0 (codes "tested")
      (some 0) build background options 7 (default_thresholds thousandths) none end_state refl refl
      refl refl tt ran executions
