-- ===== src/Metrics/Exact.antt =====
-- The collector's counters against the results that were recorded (metrics.go).
use chaoskit.Prelude.{
  ℕ, zero, suc, ◌<◌, ◌^◌, ◌≡◌, refl, ap, ◌∙◌, List, [], ◌∷◌, ◌++◌, arith, length, length-append,
  if◌then◌else◌,
}
use chaoskit.Prelude.Int.{ℤ, pos, add64, add64_small}
use chaoskit.Text.{Str}
use chaoskit.Execution.{ExecutionResult}
use chaoskit.Metrics.{Metrics, record_execution, record_injector_metrics}
use chaoskit.Reporter.Judge.{successes, failures, total_duration}
use chaoskit.Reporter.Judge.Counts.{successes-failures}

-- An int that was incremented n times.
unfoldable pub counted : ℕ → ℤ
counted zero = pos 0
counted (suc n) = add64 (counted n) (pos 1)

counted_exact : (n : ℕ) → n < 2 ^ 63 → counted n ≡ pos n
unfolding counted
counted_exact zero h = refl
counted_exact (suc n) h =
    rw (counted_exact n (omega arith)) (add64_small n 1 (omega arith) ∙ ap pos (omega arith))

-- The collector has seen exactly these results.
pub record Agrees (m : Metrics) (rs : List ExecutionResult) : Type 0 where
  pub executions : m.total_executions ≡ counted (length rs)
  pub success : m.success_count ≡ counted (successes rs)
  pub failure : m.failure_count ≡ counted (failures rs)
  pub durations : m.total_duration ≡ total_duration (pos 0) rs

one_more :
    (rs : List ExecutionResult) (r : ExecutionResult) → length (rs ++ r ∷ []) ≡ suc (length rs)
one_more rs r = omega (arith, length-append rs (r ∷ []))

successes-append :
    (rs : List ExecutionResult) (r : ExecutionResult)
    → successes (rs ++ r ∷ []) ≡ (if r.success then suc (successes rs) else successes rs)
unfolding successes
successes-append [] r = refl
successes-append (q ∷ rs) r = ground (arith, successes-append rs r)

failures-append :
    (rs : List ExecutionResult) (r : ExecutionResult)
    → failures (rs ++ r ∷ []) ≡ (if r.success then failures rs else suc (failures rs))
unfolding failures
failures-append [] r = refl
failures-append (q ∷ rs) r = ground (arith, failures-append rs r)

total_duration-append :
    (acc : ℤ) (rs : List ExecutionResult) (r : ExecutionResult)
    → total_duration acc (rs ++ r ∷ []) ≡ add64 (total_duration acc rs) r.duration
unfolding total_duration
total_duration-append acc [] r = refl
total_duration-append acc (q ∷ rs) r = total_duration-append (add64 acc q.duration) rs r

-- RecordExecution keeps the collector in step with the reporter.
pub record_execution-Agrees :
    (m : Metrics) (rs : List ExecutionResult) (r : ExecutionResult)
    → Agrees m rs
    → Agrees (record_execution m r) (rs ++ r ∷ [])
unfolding record_execution counted
record_execution-Agrees m rs r h = record {
  executions = rw (one_more rs r) (ap (λ n. add64 n (pos 1)) h.executions);
  success = ground (arith, h.success, successes-append rs r);
  failure = ground (arith, h.failure, failures-append rs r);
  durations = rw (total_duration-append (pos 0) rs r) (ap (λ d. add64 d r.duration) h.durations);
}

pub record_injector_metrics-Agrees :
    (m : Metrics) (name : Str) (v : ℕ) (rs : List ExecutionResult)
    → Agrees m rs
    → Agrees (record_injector_metrics m name v) rs
unfolding record_injector_metrics
record_injector_metrics-Agrees m name v rs h = record {
  executions = h.executions;
  success = h.success;
  failure = h.failure;
  durations = h.durations;
}

-- The exact numbers, where the ints have not wrapped around.
pub Agrees-exact :
    (m : Metrics) (rs : List ExecutionResult)
    → Agrees m rs
    → length rs < 2 ^ 63
    → (m.total_executions ≡ pos (length rs))
      × (m.success_count ≡ pos (successes rs))
      × (m.failure_count ≡ pos (failures rs))
Agrees-exact m rs h b = (
  h.executions ∙ counted_exact (length rs) b,
  h.success ∙ counted_exact (successes rs) (omega (arith, successes-failures rs)),
  h.failure ∙ counted_exact (failures rs) (omega (arith, successes-failures rs)),
)
