-- ===== src/Reporter/Printing.antt =====
-- reporter.go: GenerateReport and GenerateTextReport.
use chaoskit.Prelude.{ℕ, ◌+◌, Option, none, some, List, [], ◌∷◌, ◌++◌, ltb, if◌then◌else◌, length}
use chaoskit.Prelude.Int.{pos, quot}
use chaoskit.Text.{Str, codes, show_nat}
use chaoskit.Platform.{Platform}
use chaoskit.Verdict.{Verdict, unstable, fail, verdict_string}
use chaoskit.Report.{Report, ValidationFailure, ErrorSummary, FailureAnalysis}
use chaoskit.Reporter.Judge.{Reporter, successes, failures, total_duration}

abbrev pub newline : Str
newline = 10 ∷ []

-- One call of `each` for each element, one after the other.
unfoldable pub lines_of {ℓ} : {A : Type ℓ} → (A → Str) → List A → Str
lines_of each [] = []
lines_of each (x ∷ xs) = each x ++ lines_of each xs

module _ (p : Platform) where
  open p use {
    Float, float_div, float_mul, float_of, literal, show_fixed, show_duration, show_instant,
  }

  unfoldable pub generate_report : Reporter → Str
  unfolding successes failures total_duration
  generate_report rp = elim rp.results [
    | [] ↦ codes "No executions recorded"
    | r ∷ rs ↦
        let results = r ∷ rs in
        codes "ChaosKit Execution Report"
        ++ newline
        ++ codes "========================"
        ++ newline
        ++ codes "Total Executions: "
        ++ show_nat (length results)
        ++ newline
        ++ codes "Success: "
        ++ show_nat (successes results)
        ++ newline
        ++ codes "Failed: "
        ++ show_nat (failures results)
        ++ newline
        ++ codes "Success Rate: "
        ++ show_fixed (
            float_mul (float_div (float_of (successes results)) (float_of (length results)))
              (literal 100 0))
        ++ codes "%"
        ++ newline
        ++ codes "Average Duration: "
        ++ show_duration (quot (total_duration (pos 0) results) (length results))
        ++ newline
  ]

  -- The icons are these bytes of UTF-8: a check mark, a cross, a warning sign, a red circle and a
  -- prohibition sign.
  warning_sign : Str
  warning_sign = 226 ∷ 154 ∷ 160 ∷ 239 ∷ 184 ∷ 143 ∷ []

  icon : Verdict → Str
  unfolding warning_sign
  icon fail = 226 ∷ 157 ∷ 140 ∷ []
  icon unstable = warning_sign
  icon v = 226 ∷ 156 ∷ 133 ∷ []

  failure_line : ValidationFailure → Str
  failure_line f =
      codes "  - "
      ++ f.validator_name
      ++ codes ": "
      ++ f.message
      ++ codes " (occurred "
      ++ show_nat f.occurrences
      ++ codes " times)"
      ++ newline

  -- A section of the report stands only where it has entries.
  section_of : Str → List ValidationFailure → Str
  unfolding failure_line lines_of
  section_of title fs =
      if ltb 0 (length fs) then title ++ newline ++ lines_of failure_line fs ++ newline else []

  top_lines : ℕ → List ErrorSummary → Str
  top_lines i [] = []
  top_lines i (e ∷ es) =
      codes "  "
      ++ show_nat (i + 1)
      ++ codes ". "
      ++ e.error_pattern
      ++ codes " ("
      ++ show_nat e.count
      ++ codes " occurrences)"
      ++ newline
      ++ top_lines (i + 1) es

  top_errors : Option FailureAnalysis → Str
  unfolding top_lines
  top_errors none = []
  top_errors (some a) =
      if ltb 0 (length a.top_errors)
      then codes "Top Errors:" ++ newline ++ top_lines 0 a.top_errors ++ newline
      else []

  item : Str → ValidationFailure → Str
  item word f = word ++ f.validator_name ++ newline

  action_items : Verdict → Report Float → Str
  unfolding item lines_of warning_sign
  action_items fail report =
      codes "Action Required:"
      ++ newline
      ++ codes "  "
      ++ (240 ∷ 159 ∷ 154 ∷ 171 ∷ [])
      ++ codes " DO NOT DEPLOY - Fix critical issues before release"
      ++ newline
      ++ lines_of (item (codes "  - Fix: ")) report.critical_failures
  action_items unstable report =
      codes "Action Recommended:"
      ++ newline
      ++ codes "  "
      ++ warning_sign
      ++ codes "  Review warnings before deployment"
      ++ newline
      ++ lines_of (item (codes "  - Review: ")) report.warnings
  action_items v report = []

  statistics : Report Float → Str
  statistics report =
      codes "Statistics:"
      ++ newline
      ++ codes "  Total Iterations: "
      ++ show_nat report.total_iterations
      ++ newline
      ++ codes "  Success: "
      ++ show_nat report.success_count
      ++ codes " ("
      ++ show_fixed (float_mul report.success_rate (literal 100 0))
      ++ codes "%)"
      ++ newline
      ++ codes "  Failures: "
      ++ show_nat report.failure_count
      ++ newline
      ++ codes "  Avg Duration: "
      ++ show_duration report.avg_duration
      ++ newline
      ++ newline

  heading : Report Float → Str
  unfolding icon
  heading report =
      codes "=== ChaosKit Test Report ==="
      ++ newline
      ++ codes "Scenario: "
      ++ report.scenario_name
      ++ newline
      ++ codes "Executed: "
      ++ show_instant report.execution_time
      ++ newline
      ++ codes "Duration: "
      ++ show_duration report.duration
      ++ newline
      ++ newline
      ++ icon report.verdict
      ++ codes " VERDICT: "
      ++ verdict_string report.verdict
      ++ newline
      ++ report.summary
      ++ newline
      ++ newline

  unfoldable pub generate_text_report : Report Float → Str
  unfolding heading statistics section_of top_errors action_items warning_sign
  generate_text_report report =
      heading report
      ++ statistics report
      ++ section_of ((240 ∷ 159 ∷ 148 ∷ 180 ∷ []) ++ codes " Critical Failures:")
          report.critical_failures
      ++ section_of (warning_sign ++ codes "  Warnings:") report.warnings
      ++ top_errors report.analysis
      ++ action_items report.verdict report
