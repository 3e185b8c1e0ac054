-- ===== src/Executor.antt =====
-- executor.go: the executor, its options, and the state that a run threads through.
pub mod ChaosBuild
pub mod Once
pub mod Loop
pub mod Run
pub mod Outcomes
pub mod Invariants
pub mod Rounds
pub mod Lifecycle
pub mod Panics
pub mod Kept
pub mod Networks
pub mod Assembly
pub mod Books
use chaoskit.Prelude.{ℕ, List, [], ◌∷◌, ◌++◌}
use chaoskit.Prelude.Int.{ℤ}
use chaoskit.Exec.{Exec, Outcome}
use chaoskit.Execution.{ExecutionResult}
use chaoskit.Metrics.{Metrics, new_metrics, record_execution}
use chaoskit.Reporter.Judge.{Reporter, new_reporter, add_result}
use chaoskit.Scenario.{Scenario, Scope}

pub data FailurePolicy : Type 0 where
  fail_fast continue_on_failure : FailurePolicy
  other : ℤ → FailurePolicy

-- The logger only writes, and is left out.
pub record Executor : Type 0 where
  pub metrics : Metrics
  pub reporter : Reporter
  pub failure_policy : FailurePolicy

abbrev pub ExecutorOption : Type 0
ExecutorOption = Executor → Executor

unfoldable pub with_failure_policy : FailurePolicy → ExecutorOption
with_failure_policy policy e = record e { failure_policy = policy }

unfoldable pub with_metrics : Metrics → ExecutorOption
with_metrics m e = record e { metrics = m }

unfoldable pub with_reporter : Reporter → ExecutorOption
with_reporter rp e = record e { reporter = rp }

apply_options : Executor → List ExecutorOption → Executor
apply_options e [] = e
apply_options e (opt ∷ opts) = apply_options (opt e) opts

unfoldable pub new_executor : List ExecutorOption → Executor
unfolding apply_options new_metrics new_reporter
new_executor opts =
    apply_options
      (record { metrics = new_metrics; reporter = new_reporter; failure_policy = fail_fast }) opts

-- The executor's collectors beside the world of the user's objects.
pub record State (W : Type 0) : Type 0 where
  pub world : W
  pub metrics : Metrics
  pub reporter : Reporter

-- A call out of the executor changes the world alone.
unfoldable pub call : {W A : Type 0} → Exec W A → Exec (State W) A
call m s = let (r, w) = m s.world in (r, record s { world = w })

-- e.metrics.RecordExecution(result); e.reporter.AddResult(result)
unfoldable pub record_result : {W : Type 0} → ExecutionResult → Exec (State W) (Unit {0})
unfolding record_execution add_result
record_result r s = (
  Outcome.returns tt,
  record s { metrics = record_execution s.metrics r; reporter = add_result s.reporter r },
)

scope_injectors : List Scope → List ℕ
scope_injectors [] = []
scope_injectors (sc ∷ scs) = sc.injectors ++ scope_injectors scs

-- getAllInjectors: the direct injectors, then those of the scopes in order.
unfoldable pub all_injectors : Scenario → List ℕ
unfolding scope_injectors
all_injectors sc = sc.injectors ++ scope_injectors sc.scopes
