-- ===== src/Report.antt =====
-- report.go: the report of a run. `Details`, `Examples` and `FailureRateOverTime`, which no code of
-- the package sets, are left out.
use chaoskit.Prelude.{ℕ, List, Option}
use chaoskit.Prelude.Int.{ℤ}
use chaoskit.Text.{Str}
use chaoskit.Verdict.{Verdict, Severity}
use chaoskit.Thresholds.{SuccessThresholds}

pub record ValidationFailure : Type 0 where
  pub validator_name : Str
  pub severity : Severity
  pub message : Str
  pub occurrences : ℕ
  pub first_seen : ℤ
  pub last_seen : ℤ

pub record ErrorSummary : Type 0 where
  pub error_pattern : Str
  pub count : ℕ
  pub severity : Severity

-- A map[string]int, by its entries.
abbrev pub Counts : Type 0
Counts = List (Str × ℕ)

pub record FailureAnalysis : Type 0 where
  pub by_validator : Counts
  pub by_type : Counts
  pub top_errors : List ErrorSummary

pub record Report (Float : Type 0) : Type 0 where
  pub verdict : Verdict
  pub summary : Str
  pub scenario_name : Str
  pub execution_time : ℤ
  pub duration : ℤ
  pub total_iterations : ℕ
  pub success_count : ℕ
  pub failure_count : ℕ
  pub success_rate : Float
  pub avg_duration : ℤ
  pub critical_failures : List ValidationFailure
  pub warnings : List ValidationFailure
  pub info_messages : List ValidationFailure
  pub analysis : Option FailureAnalysis
  pub thresholds : SuccessThresholds Float
