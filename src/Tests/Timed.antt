-- ===== src/Tests/Timed.antt =====
-- runForDuration under timers that a world with a clock keeps.
use chaoskit.Prelude.{
  ℕ, zero, suc, ◌+◌, ◌≤◌, ◌≡◌, refl, Option, none, some, List, [], ◌∷◌, ◌++◌, length, leb, arith,
  if◌then◌else◌,
}
use chaoskit.Prelude.Int.{pos_part}
use chaoskit.Errors.{Error, deadline_exceeded}
use chaoskit.Exec.{Outcome, ◌>>=◌}
use chaoskit.Exec.Ensures.{Leaves, Anything}
use chaoskit.Host.{Host}
use chaoskit.Executor.{State, continue_on_failure, call, all_injectors, record_result}
use chaoskit.Executor.Books.{fresh}
use chaoskit.Executor.ChaosBuild.{build_chaos_context}
use chaoskit.Executor.Loop.{iterate, reset_validators, run_for_duration}
use chaoskit.Executor.Once.{execute_once, run_step}
use chaoskit.Executor.Rounds.Returns.{Timers, Advances, run_for_duration-returns}
use chaoskit.Tests.{idle, ticking, anywhere}

-- The time, and the deadline of every context that was made; a context is its place in the list.
record Watch : Type 0 where
  time : ℕ
  deadlines : List ℕ

abbrev nth : ℕ → List ℕ → Option ℕ
nth n [] = none
nth zero (d ∷ ds) = some d
nth (suc n) (d ∷ ds) = nth n ds

abbrev over : Option ℕ → ℕ → Option Error
over none t = none
over (some d) t = if leb d t then some deadline_exceeded else none

-- Step s takes s units of time.
abbrev watched : Host Watch
watched = record idle {
  ctx_err = λ c w. over (nth c w.deadlines) w.time;
  with_timeout = λ c d w. (
    Outcome.returns (length w.deadlines),
    record w { deadlines = w.deadlines ++ (w.time + pos_part d) ∷ [] },
  );
  execute = λ s c t w. (Outcome.returns none, record w { time = w.time + s });
}

abbrev Armed : ℕ → ℕ → Watch → Type 0
Armed handle deadline w = nth handle w.deadlines ≡ some deadline

nth-length : (l : List ℕ) (d : ℕ) → nth (length l) (l ++ d ∷ []) ≡ some d
nth-length [] d = refl
nth-length (x ∷ l) d = nth-length l d

over-expired : (o : Option ℕ) (d t : ℕ) → o ≡ some d → d ≤ t → (e : Error) × (over o t ≡ some e)
over-expired o d t e l = rw e (deadline_exceeded, ground arith)

timers : Timers watched (λ w. w.time) Armed
timers = record {
  arms = λ parent d. record {
    at = λ w p. (w.time + d, omega arith, nth-length w.deadlines (w.time + d));
  };
  expires = λ handle deadline w a l. over-expired _ deadline w.time a l;
}

advances : Advances watched continue_on_failure ticking 0 (λ w. w.time) Armed anywhere
unfolding iterate ◌>>=◌ call reset_validators execute_once run_step all_injectors
    build_chaos_context record_result
advances = λ handle deadline n first t. record { at = λ s p. (omega (arith, p.0), p.1) }

-- It is 3 o'clock, and a timer goes off at 4.
abbrev started : State Watch
started = fresh watched ticking (record { time = 3; deadlines = 4 ∷ [] })

run_for_duration-returns_example :
    Leaves
      (λ o _. (e : Option Error) × (o ≡ some e))
      Anything
      (run_for_duration watched continue_on_failure ticking 0 7 anywhere started)
run_for_duration-returns_example =
    run_for_duration-returns watched continue_on_failure ticking 0 (λ w. w.time) Armed timers
      anywhere advances 6 7 started refl (omega arith)
