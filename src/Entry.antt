-- ===== src/Entry.antt =====
-- core.go: Run, RunWithLogger and RunWithSlogLogger, which run a scenario with a new executor and
-- print the plain report.
use chaoskit.Prelude.{ℕ, Option, none, some, []}
use chaoskit.Text.{Str}
use chaoskit.Errors.{Error}
use chaoskit.Platform.{Platform}
use chaoskit.Exec.{Exec, Outcome, pure, ◌>>=◌}
use chaoskit.Host.{Host, Context}
use chaoskit.Scenario.{Scenario}
use chaoskit.Reporter.Printing.{generate_report}
use chaoskit.Executor.{State, new_executor}
use chaoskit.Executor.Run.{run}

-- Where a text goes: fmt.Println, the Println of a Logger, or the Info of a structured logger.
pub data Printer : Type 0 where
  standard_output logger structured_logger : Printer

-- What the caller gets: the error of the run, or nil after a text was printed.
pub data Ended : Type 0 where
  failed : Error → Ended
  printed : Printer → Str → Ended

module _ (p : Platform) {W : Type 0} (h : Host W) (fuel : ℕ) where
  reporting : Printer → Option (Option Error) → Exec (State W) (Option Ended)
  reporting to none s = pure none s
  reporting to (some (some e)) s = pure (some (failed e)) s
  reporting to (some none) s = pure (some (printed to (generate_report p s.reporter))) s

  -- `none` is a duration-based run that used up its fuel.
  run_reporting : Printer → Context W → Scenario → W → Outcome (Option Ended) × State W
  unfolding reporting
  run_reporting to ctx sc w =
      let e = new_executor [] in
      (run h e.failure_policy fuel sc ctx >>= reporting to)
        (record { world = w; metrics = e.metrics; reporter = e.reporter })

  unfoldable pub run_scenario : Context W → Scenario → W → Outcome (Option Ended) × State W
  unfolding run_reporting
  run_scenario = run_reporting standard_output

  unfoldable pub run_with_logger : Context W → Scenario → W → Outcome (Option Ended) × State W
  unfolding run_reporting
  run_with_logger = run_reporting logger

  unfoldable pub run_with_slog_logger : Context W → Scenario → W → Outcome (Option Ended) × State W
  unfolding run_reporting
  run_with_slog_logger = run_reporting structured_logger
