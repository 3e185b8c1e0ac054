-- ===== src/Tests/Reports.antt =====
-- The reporter on one result, whose error names the memory validator.
use mathlib.Core.List.Perm
use chaoskit.Prelude.{
  ℕ, ◌+◌, ◌≤◌, ◌≡◌, ◌↔◌, refl, true, false, none, some, List, [], ◌∷◌, sym, ◌∙◌, subst,
}
use chaoskit.Prelude.Int.{pos, quot, add64}
use chaoskit.Text.{codes, index, has_prefix, str_eq}
use chaoskit.Reporter.Sorting.{sort_by}
use chaoskit.Reporter.Failures.{is_listed, note}
use chaoskit.Errors.{Error, plain, message, ok, panic}
use chaoskit.Verdict.{pass, unstable, fail, critical, warning, info, severity_eq}
use chaoskit.Thresholds.{
  SuccessThresholds, memory_limit, type_unknown, default_thresholds, validate,
}
use chaoskit.Execution.{ExecutionResult, step_failed, validator_failed}
use chaoskit.Report.{Report, ValidationFailure}
use chaoskit.Reporter.Names.{extract_validator_name, mappings, normalize_validator_name}
use chaoskit.Reporter.Names.Keys.{IsUnambiguous, normalize-Perm}
use chaoskit.Reporter.Names.RoundTrip.{
  extract-validator_failed, extract-step_failed, extract_out_of_bounds,
}
use chaoskit.Reporter.Orders.{insertion_order}
use chaoskit.Reporter.Failures.{categorize_failures, validator_severity}
use chaoskit.Reporter.Failures.Spec.{AllSpeak, times, occurrences}
use chaoskit.Reporter.Failures.Categorize.{
  ok-injective, of_severity, occurrences-categorize, IsOrdered, categorize-IsOrdered,
}
use chaoskit.Reporter.Failures.Partition.{anyone, errors_in, categorize_failures-errors_in}
use chaoskit.Reporter.Judge.{get_verdict, successes, failures, total_duration}
use chaoskit.Reporter.Judge.Returns.{AllReadable}
use chaoskit.Reporter.Judge.Decision.{
  IsJudged, deserved, verdict_for, named_failures, get_verdict-deserved,
}
use chaoskit.Reporter.Judge.Answers.{get_verdict-report, summary_without_reason}
use chaoskit.Tests.{thousandths, insertion_laws, memory_limit-IsPlain, memory_limit-IsUnambiguous}

abbrev oversized : Error
oversized = plain (codes "oversized")

abbrev failed : ExecutionResult
failed = record {
  scenario_name = codes "service";
  success = false;
  error = some (validator_failed memory_limit oversized);
  duration = pos 5;
  steps_executed = 2;
  timestamp = pos 1;
}

abbrev defaults : SuccessThresholds ℕ
defaults = default_thresholds thousandths

extract-validator_failed_example :
    extract_validator_name (validator_failed memory_limit oversized) ≡ ok memory_limit
extract-validator_failed_example =
    extract-validator_failed memory_limit oversized memory_limit-IsPlain

extract-step_failed_example :
    extract_validator_name (step_failed (codes "validator failed:") oversized) ≡ ok type_unknown
extract-step_failed_example = extract-step_failed (codes "validator failed:") oversized

extract_out_of_bounds_example :
    extract_validator_name (plain (codes "validator failed: no"))
    ≡ panic (codes "slice bounds out of range")
unfolding message
extract_out_of_bounds_example =
    extract_out_of_bounds (codes " no") (plain (codes "validator failed: no")) refl

normalize-Perm_example :
    normalize_validator_name mappings memory_limit ≡ normalize_validator_name mappings memory_limit
normalize-Perm_example =
    normalize-Perm mappings memory_limit (Perm.refl mappings) memory_limit-IsUnambiguous

speaks : AllSpeak IsUnambiguous (failed ∷ [])
speaks = (
  (λ v e.
      subst IsUnambiguous
        (ok-injective
          (sym (extract-validator_failed memory_limit oversized memory_limit-IsPlain) ∙ e))
        memory_limit-IsUnambiguous),
  tt,
)

readable : AllReadable (failed ∷ [])
readable =
    ((memory_limit, extract-validator_failed memory_limit oversized memory_limit-IsPlain), tt)

valid : validate thousandths defaults ≡ ok tt
unfolding validate default_thresholds
valid = refl

get_verdict-deserved_example :
    (report : Report ℕ) × (get_verdict thousandths insertion_order
        (pos 9)
        (record { results = failed ∷ [] })
        defaults
      ≡ ok report)
    × IsJudged thousandths defaults (failed ∷ []) report.verdict
    × (report.success_count + report.failure_count ≡ 1)
get_verdict-deserved_example =
    get_verdict-deserved thousandths insertion_order insertion_laws (pos 9) defaults failed [] valid
      readable speaks

-- One iteration that passed, and took longer than the maximum of three units of time.
abbrev passed : ExecutionResult
passed = record failed { success = true; error = none }

abbrev hurried : SuccessThresholds ℕ
hurried = record defaults { max_avg_duration = pos 3 }

slow_test :
    (deserved thousandths hurried (passed ∷ []) ≡ unstable)
    × (verdict_for thousandths hurried false (passed ∷ []) ≡ pass)
unfolding default_thresholds total_duration successes failures quot add64
slow_test = (refl, refl)

get_verdict-report_example :
    ((report : Report ℕ) × (get_verdict thousandths insertion_order
          (pos 9)
          (record { results = failed ∷ [] })
          defaults
        ≡ ok report))
    ↔ ((1 ≤ 1) × (validate thousandths defaults ≡ ok tt))
get_verdict-report_example =
    get_verdict-report thousandths insertion_order (pos 9) defaults
      (record { results = failed ∷ [] }) readable

-- No failure is critical and any success rate will do, but all iterations have to pass.
abbrev demanding : SuccessThresholds ℕ
demanding = record {
  min_success_rate = 0;
  critical_validators = [];
  warning_validators = [];
  max_failed_iterations = pos 0;
  max_avg_duration = pos 0;
  require_all_validators_passing = true;
}

demanding_valid : validate thousandths demanding ≡ ok tt
unfolding validate
demanding_valid = refl

none_critical : named_failures thousandths demanding critical (failed ∷ []) ≡ 0
unfolding extract_validator_name index message validator_failed has_prefix severity_eq
    validator_severity is_listed str_eq normalize_validator_name
none_critical = refl

summary_without_reason_example :
    (report : Report ℕ) × (get_verdict thousandths insertion_order
        (pos 9)
        (record { results = failed ∷ [] })
        demanding
      ≡ ok report)
    × (report.verdict ≡ fail)
    × (report.summary ≡ codes "Tests failed: ")
unfolding successes failures
summary_without_reason_example =
    summary_without_reason thousandths insertion_order insertion_laws (pos 9) demanding failed []
      demanding_valid readable speaks none_critical refl refl

abbrev listed : List ValidationFailure
listed =
    record {
      validator_name = memory_limit;
      severity = critical;
      message = message (validator_failed memory_limit oversized);
      occurrences = 1;
      first_seen = pos 1;
      last_seen = pos 1;
    }
    ∷ []

categorized : categorize_failures insertion_order defaults critical (failed ∷ []) ≡ ok listed
unfolding categorize_failures extract_validator_name index message validator_failed has_prefix
    sort_by severity_eq validator_severity is_listed default_thresholds str_eq
    normalize_validator_name note
categorized = refl

occurrences-categorize_example :
    occurrences (λ v. true) listed ≡ times (of_severity defaults critical (λ v. true)) (failed ∷ [])
occurrences-categorize_example =
    occurrences-categorize insertion_order insertion_laws defaults (λ v. true) critical
      (failed ∷ []) listed speaks categorized

categorize-IsOrdered_example : IsOrdered critical listed
categorize-IsOrdered_example =
    categorize-IsOrdered insertion_order insertion_laws defaults critical (failed ∷ []) listed
      speaks categorized

no_warnings : categorize_failures insertion_order defaults warning (failed ∷ []) ≡ ok []
unfolding categorize_failures extract_validator_name index message validator_failed has_prefix
    sort_by severity_eq validator_severity is_listed default_thresholds str_eq
    normalize_validator_name note
no_warnings = refl

no_infos : categorize_failures insertion_order defaults info (failed ∷ []) ≡ ok []
unfolding categorize_failures extract_validator_name index message validator_failed has_prefix
    sort_by severity_eq validator_severity is_listed default_thresholds str_eq
    normalize_validator_name note
no_infos = refl

categorize_failures-errors_in_example :
    occurrences anyone listed + occurrences anyone [] + occurrences anyone []
    ≡ errors_in (failed ∷ [])
categorize_failures-errors_in_example =
    categorize_failures-errors_in insertion_order insertion_laws defaults (failed ∷ []) listed [] []
      readable speaks categorized no_warnings no_infos
