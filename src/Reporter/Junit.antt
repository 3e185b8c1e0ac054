-- ===== src/Reporter/Junit.antt =====
-- reporter_junit.go: the JUnit test suite of a report. The encoder of `encoding/xml` and the file
-- system are parameters.
pub mod Cases
use chaoskit.Prelude.{ℕ, Option, none, some, List, [], ◌∷◌, ◌++◌, map, length}
use chaoskit.Prelude.Int.{ℤ}
use chaoskit.Text.{Str, codes, show_nat}
use chaoskit.Errors.{Error, Result, ok, err, panic, wrapped}
use chaoskit.Exec.{Exec, pure, panics}
use chaoskit.Platform.{Platform}
use chaoskit.Verdict.{Verdict, unstable, fail, verdict_string}
use chaoskit.Report.{Report, ValidationFailure}
use chaoskit.Reporter.Printing.{newline, lines_of}

pub record JunitFailure : Type 0 where
  pub message : Str
  pub kind : Str
  pub content : Str

pub record JunitError : Type 0 where
  pub message : Str
  pub kind : Str
  pub content : Str

pub record JunitTestCase (Float : Type 0) : Type 0 where
  pub name : Str
  pub classname : Str
  pub time : Float
  pub failure : Option JunitFailure
  pub error : Option JunitError

pub record JunitTestSuite (Float : Type 0) : Type 0 where
  pub name : Str
  pub tests : ℕ
  pub failures : ℕ
  pub errors : ℕ
  pub time : Float
  pub timestamp : Str
  pub test_cases : List (JunitTestCase Float)

-- `seconds` is time.Duration.Seconds.
module _ (p : Platform) (seconds : ℤ → p.Float) where
  open p use {Float, float_mul, float_of, literal, show_fixed, show_instant}

  rate_line : Report Float → Str
  rate_line report =
      codes "Verdict: "
      ++ verdict_string report.verdict
      ++ newline
      ++ codes "Success Rate: "
      ++ show_fixed (float_mul report.success_rate (literal 100 0))
      ++ codes "%"
      ++ newline

  entry : ValidationFailure → Str
  entry f =
      codes "- "
      ++ f.validator_name
      ++ codes ": "
      ++ f.message
      ++ codes " ("
      ++ show_nat f.occurrences
      ++ codes " times)"
      ++ newline

  unfoldable pub format_failures : Report Float → Str
  unfolding rate_line entry lines_of
  format_failures report =
      rate_line report
      ++ codes "Critical Failures: "
      ++ show_nat (length report.critical_failures)
      ++ newline
      ++ newline
      ++ lines_of entry report.critical_failures

  unfoldable pub format_warnings : Report Float → Str
  unfolding rate_line entry lines_of
  format_warnings report =
      rate_line report
      ++ codes "Warnings: "
      ++ show_nat (length report.warnings)
      ++ newline
      ++ newline
      ++ lines_of entry report.warnings

  verdict_failure : Verdict → Report Float → Option JunitFailure
  unfolding format_failures
  verdict_failure fail report = some record {
    message = report.summary;
    kind = codes "VerdictFail";
    content = format_failures report;
  }
  verdict_failure v report = none

  verdict_error : Verdict → Report Float → Option JunitError
  unfolding format_warnings
  verdict_error unstable report = some record {
    message = report.summary;
    kind = codes "VerdictUnstable";
    content = format_warnings report;
  }
  verdict_error v report = none

  unfoldable pub verdict_case : Report Float → JunitTestCase Float
  unfolding verdict_failure verdict_error
  verdict_case report = record {
    name = codes "chaos-test-verdict";
    classname = codes "chaoskit." ++ report.scenario_name;
    time = seconds report.duration;
    failure = verdict_failure report.verdict report;
    error = verdict_error report.verdict report;
  }

  unfoldable pub failure_case : ValidationFailure → JunitTestCase Float
  failure_case f = record {
    name = f.validator_name;
    classname = codes "chaoskit.validator";
    time = float_of 0;
    failure = some record {
      message = f.message;
      kind = codes "CriticalValidatorFailure";
      content =
          codes "Validator "
          ++ f.validator_name
          ++ codes " failed "
          ++ show_nat f.occurrences
          ++ codes " times"
          ++ newline
          ++ codes "First seen: "
          ++ show_instant f.first_seen
          ++ newline
          ++ codes "Last seen: "
          ++ show_instant f.last_seen;
    };
    error = none;
  }

  unfoldable pub warning_case : ValidationFailure → JunitTestCase Float
  warning_case f = record {
    name = f.validator_name;
    classname = codes "chaoskit.validator";
    time = float_of 0;
    failure = none;
    error = some record {
      message = f.message;
      kind = codes "ValidatorWarning";
      content =
          codes "Validator "
          ++ f.validator_name
          ++ codes " produced "
          ++ show_nat f.occurrences
          ++ codes " warnings";
    };
  }

  unfoldable pub junit_suite : Report Float → JunitTestSuite Float
  junit_suite report = record {
    name = report.scenario_name;
    tests = report.total_iterations;
    failures = length report.critical_failures;
    errors = length report.warnings;
    time = seconds report.duration;
    timestamp = show_instant report.execution_time;
    test_cases =
        verdict_case report
        ∷ (map failure_case report.critical_failures ++ map warning_case report.warnings);
  }

  module _ (encode : JunitTestSuite Float → Result Str) where
    -- xml.Header, and the encoding of the suite.
    unfoldable pub generate_junit_xml : Report Float → Result Str
    unfolding junit_suite
    generate_junit_xml report = elim (encode (junit_suite report)) [
      | ok text ↦ ok (codes "<?xml version=\"1.0\" encoding=\"UTF-8\"?>" ++ newline ++ text)
      | err e ↦ err (wrapped (codes "failed to marshal JUnit XML: ") e)
      | panic v ↦ panic v
    ]

    unfoldable pub save_junit_xml :
        {W : Type 0}
        → (Str → Str → Exec W (Option Error))
        → Report Float
        → Str
        → Exec W (Option Error)
    unfolding generate_junit_xml
    save_junit_xml write report path = elim (generate_junit_xml report) [
      | ok text ↦ write path text
      | err e ↦ pure (some e)
      | panic v ↦ λ w. (panics v, w)
    ]
