-- ===== src/Reporter/Judge/Counts.antt =====
-- The statistics of a report (reporter.go).
use chaoskit.Prelude.{◌+◌, ◌≡◌, List, [], ◌∷◌, arith, length}
use chaoskit.Execution.{ExecutionResult}
use chaoskit.Reporter.Judge.{successes, failures}

-- Every result is counted once, as a success or as a failure.
pub successes-failures : (rs : List ExecutionResult) → successes rs + failures rs ≡ length rs
unfolding successes failures
successes-failures [] = omega arith
successes-failures (r ∷ rs) = ground (arith, successes-failures rs)
