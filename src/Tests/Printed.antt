-- ===== src/Tests/Printed.antt =====
-- The reports of one successful execution.
use chaoskit.Prelude.{ℕ, ◌+◌, ◌≡◌, refl, true, none, [], ◌∷◌, length}
use chaoskit.Prelude.Int.{pos}
use chaoskit.Text.{codes}
use chaoskit.Errors.{ok}
use chaoskit.Verdict.{exit_code}
use chaoskit.Thresholds.{SuccessThresholds, validate, default_thresholds}
use chaoskit.Execution.{ExecutionResult}
use chaoskit.Report.{Report}
use chaoskit.Reporter.Orders.{insertion_order}
use chaoskit.Reporter.Judge.{Reporter, get_verdict, draft_report, draft_of, conclude}
use chaoskit.Reporter.Analysis.{analyze_failures}
use chaoskit.Reporter.Failures.{categorize_failures}
use chaoskit.Reporter.Sorting.{sort_by}
use chaoskit.Reporter.Junit.{junit_suite}
use chaoskit.Reporter.Junit.Cases.{failing, erring, unsettled, junit_suite-get_verdict}
use chaoskit.Tests.{thousandths}

abbrev passed : ExecutionResult
passed = record {
  scenario_name = codes "service";
  success = true;
  error = none;
  duration = pos 5000000;
  steps_executed = 2;
  timestamp = pos 1;
}

abbrev once : Reporter
once = record { results = passed ∷ [] }

abbrev defaults : SuccessThresholds ℕ
defaults = default_thresholds thousandths

abbrev good : Report ℕ
good = conclude thousandths (
    draft_of thousandths (pos 9) defaults passed []
      (record { by_validator = []; by_type = []; top_errors = [] }) [] [] [])

judged : get_verdict thousandths insertion_order (pos 9) once defaults ≡ ok good
unfolding get_verdict validate default_thresholds draft_report analyze_failures categorize_failures
    sort_by
judged = refl

junit_suite-get_verdict_example :
    (failing (junit_suite thousandths (λ d. 5) good).test_cases
      ≡ exit_code good.verdict + (junit_suite thousandths (λ d. 5) good).failures)
    × (erring (junit_suite thousandths (λ d. 5) good).test_cases
        ≡ unsettled good.verdict + (junit_suite thousandths (λ d. 5) good).errors)
    × ((junit_suite thousandths (λ d. 5) good).failures ≡ length good.critical_failures)
    × ((junit_suite thousandths (λ d. 5) good).errors ≡ length good.warnings)
junit_suite-get_verdict_example =
    junit_suite-get_verdict thousandths (λ d. 5) insertion_order (pos 9) defaults once good judged
