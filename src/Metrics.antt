-- ===== src/Metrics.antt =====
-- metrics.go: MetricsCollector. The counters are ints and the total a time.Duration, which wrap
-- around at 64 bits; a map of an injector's metrics is a reference.
pub mod Exact
use chaoskit.Prelude.{ℕ, Option, none, some, List, [], ◌∷◌, if◌then◌else◌}
use chaoskit.Prelude.Int.{ℤ, pos, add64, quot, pos_part, ltb_ℤ}
use chaoskit.Text.{Str, str_eq}
use chaoskit.Dict
use chaoskit.Dict.{Dict}
use chaoskit.Execution.{ExecutionResult}

pub record Metrics : Type 0 where
  pub total_executions : ℤ
  pub success_count : ℤ
  pub failure_count : ℤ
  pub total_duration : ℤ
  pub injector_metrics : Dict ℕ

unfoldable pub new_metrics : Metrics
new_metrics = record {
  total_executions = pos 0;
  success_count = pos 0;
  failure_count = pos 0;
  total_duration = pos 0;
  injector_metrics = [];
}

unfoldable pub record_execution : Metrics → ExecutionResult → Metrics
unfolding add64
record_execution m r = record m {
  total_executions = add64 m.total_executions (pos 1);
  total_duration = add64 m.total_duration r.duration;
  success_count = if r.success then add64 m.success_count (pos 1) else m.success_count;
  failure_count = if r.success then m.failure_count else add64 m.failure_count (pos 1);
}

unfoldable pub record_injector_metrics : Metrics → Str → ℕ → Metrics
unfolding Dict.put
record_injector_metrics m name v = record m {
  injector_metrics = Dict.put name v m.injector_metrics;
}

unfoldable pub get_injector_metrics : Metrics → Str → Option ℕ
unfolding Dict.find
get_injector_metrics m name = Dict.find name m.injector_metrics

-- The entries of the map that Stats returns.
pub record Stats : Type 0 where
  pub total_executions : ℤ
  pub success_count : ℤ
  pub failure_count : ℤ
  pub avg_duration_ms : ℤ
  pub injector_metrics : Dict ℕ

-- The average is taken for a positive count only; a Duration is in nanoseconds.
unfoldable pub stats : Metrics → Stats
unfolding quot
stats m = record {
  total_executions = m.total_executions;
  success_count = m.success_count;
  failure_count = m.failure_count;
  avg_duration_ms =
      if ltb_ℤ (pos 0) m.total_executions
      then quot (quot m.total_duration (pos_part m.total_executions)) 1000000
      else pos 0;
  injector_metrics = m.injector_metrics;
}
