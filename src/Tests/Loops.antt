-- ===== src/Tests/Loops.antt =====
-- The loops of the executor in the small world.
use chaoskit.Prelude.{ℕ, none, some, []}
use chaoskit.Exec.Ensures.{Leaves, Anything, Ensures-pure}
use chaoskit.Executor.{State, fail_fast, continue_on_failure, new_executor}
use chaoskit.Executor.Books.{fresh}
use chaoskit.Executor.Loop.{run_repeated, run_until_from, rounds}
use chaoskit.Scenario.{Scenario}
use chaoskit.Prelude.{◌∷◌}
use chaoskit.Prelude.Int.{pos}
use chaoskit.Executor.Panics.{RecordsPanics, run_steps-contained}
use chaoskit.Executor.Once.{run_steps}
use chaoskit.Executor.Rounds.{Rounds, Ended}
use chaoskit.Executor.Rounds.Repeated.{run_repeated-Rounds}
use chaoskit.Executor.Rounds.Until.{UntilRounds, run_until_from-ends}
use chaoskit.Tests.{bench, thrice, ticking, background}

abbrev start : State ℕ
start = fresh bench thrice 0

run_repeated-Rounds_example :
    Leaves
      (Rounds bench fail_fast thrice 0 (Ended bench fail_fast thrice 0 background 3 1 none) [])
      Anything
      (run_repeated bench fail_fast thrice 0 background start)
unfolding rounds new_executor
run_repeated-Rounds_example = run_repeated-Rounds bench fail_fast thrice 0 background start

run_until_from-ends_example :
    Leaves
      (UntilRounds bench continue_on_failure ticking 0 background 9 1 none [])
      Anything
      (run_until_from bench continue_on_failure ticking 0 background 9 1 none start)
unfolding new_executor
run_until_from-ends_example =
    run_until_from-ends bench continue_on_failure ticking 0 background 9 start

-- Step 2 panics.
abbrev exploding : Scenario
exploding = record {
  name = [];
  target = some 0;
  steps = 2 ∷ [];
  injectors = [];
  scopes = [];
  validators = 0 ∷ [];
  repeat = pos 1;
  duration = pos 0;
  seed = none;
}

records : RecordsPanics bench background 0
records = Ensures-pure tt (λ w p. tt)

run_steps-contained_example :
    Leaves (λ _. Anything) (λ _. ⊥) (run_steps bench exploding 0 background 0 (2 ∷ []) 0)
run_steps-contained_example = run_steps-contained bench background exploding 0 0 (records, tt)
