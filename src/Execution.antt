-- ===== src/Execution.antt =====
-- executor.go: the result of one execution of a scenario.
use chaoskit.Prelude.{ℕ, ◌++◌, Bool, Option}
use chaoskit.Prelude.Int.{ℤ}
use chaoskit.Text.{Str, codes}
use chaoskit.Errors.{Error, wrapped}

pub record ExecutionResult : Type 0 where
  pub scenario_name : Str
  pub success : Bool
  pub error : Option Error
  pub duration : ℤ
  pub steps_executed : ℕ
  pub timestamp : ℤ

-- The errors that `executeOnce` puts into a result.
unfoldable pub step_failed : Str → Error → Error
step_failed name e = wrapped (codes "step " ++ name ++ codes " failed: ") e

unfoldable pub validator_failed : Str → Error → Error
validator_failed name e = wrapped (codes "validator " ++ name ++ codes " failed: ") e
