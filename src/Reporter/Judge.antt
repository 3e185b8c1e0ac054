-- ===== src/Reporter/Judge.antt =====
-- reporter.go: Reporter, AddResult, Results, GetVerdict, determineVerdict and generateSummary.
pub mod Returns
pub mod Inversion
pub mod Counts
pub mod Decision
pub mod Answers
use chaoskit.Prelude.{ℕ, suc, ◌&&◌, some, List, [], ◌∷◌, ◌++◌, ltb, if◌then◌else◌, length}
use chaoskit.Prelude.Int.{ℤ, pos, ltb_ℤ, add64, quot}
use chaoskit.Text.{Str, codes, join, show_nat}
use chaoskit.Errors.{Result, ok, err, panic, plain, wrapped, ◌>>=◌}
use chaoskit.Platform.{Platform}
use chaoskit.Verdict.{Verdict, pass, unstable, fail, critical, warning, info}
use chaoskit.Thresholds.{SuccessThresholds, validate}
use chaoskit.Execution.{ExecutionResult}
use chaoskit.Report.{Report, ValidationFailure, FailureAnalysis}
use chaoskit.Reporter.Orders.{MapOrder}
use chaoskit.Reporter.Failures.{categorize_failures}
use chaoskit.Reporter.Analysis.{analyze_failures}

pub record Reporter : Type 0 where
  pub results : List ExecutionResult

unfoldable pub new_reporter : Reporter
new_reporter = record { results = [] }

unfoldable pub add_result : Reporter → ExecutionResult → Reporter
add_result rp r = record { results = rp.results ++ r ∷ [] }

-- Results: a copy of the accumulated results.
unfoldable pub get_results : Reporter → List ExecutionResult
get_results rp = rp.results

-- The loop that counts.
unfoldable pub successes : List ExecutionResult → ℕ
successes [] = 0
successes (r ∷ rs) = if r.success then suc (successes rs) else successes rs

unfoldable pub failures : List ExecutionResult → ℕ
failures [] = 0
failures (r ∷ rs) = if r.success then failures rs else suc (failures rs)

-- totalDuration += result.Duration
unfoldable pub total_duration : ℤ → List ExecutionResult → ℤ
total_duration acc [] = acc
total_duration acc (r ∷ rs) = total_duration (add64 acc r.duration) rs

module _ (p : Platform) where
  open p use {Float, float_lt, float_div, float_mul, float_of, literal, show_fixed}

  -- The fields of the report that the verdict is taken from.
  unfoldable pub determine_verdict : Report Float → SuccessThresholds Float → Verdict
  determine_verdict report t =
      if ltb 0 (length report.critical_failures)
      then fail
      else if float_lt report.success_rate t.min_success_rate
      then fail
      else if ltb_ℤ (pos 0) t.max_failed_iterations
          && ltb_ℤ t.max_failed_iterations (pos report.failure_count)
      then fail
      else if t.require_all_validators_passing && ltb 0 report.failure_count
      then fail
      else if ltb 0 (length report.warnings)
      then unstable
      else pass

  percent : Float → Str
  percent rate = show_fixed (float_mul rate (literal 100 0))

  critical_reason : Report Float → List Str
  critical_reason report =
      if ltb 0 (length report.critical_failures)
      then (show_nat (length report.critical_failures) ++ codes " critical validator(s) failed")
        ∷ []
      else []

  rate_reason : Report Float → List Str
  unfolding percent
  rate_reason report =
      if float_lt report.success_rate report.thresholds.min_success_rate
      then (codes "success rate "
          ++ percent report.success_rate
          ++ codes "% below threshold "
          ++ percent report.thresholds.min_success_rate
          ++ codes "%")
        ∷ []
      else []

  unfoldable pub fail_reasons : Report Float → List Str
  unfolding critical_reason rate_reason
  fail_reasons report = critical_reason report ++ rate_reason report

  unfoldable pub summary_for : Verdict → Report Float → Str
  unfolding percent
  summary_for pass report =
      codes "All tests passed. Success rate: "
      ++ percent report.success_rate
      ++ codes "% ("
      ++ show_nat report.success_count
      ++ codes "/"
      ++ show_nat report.total_iterations
      ++ codes " iterations)"
  summary_for unstable report =
      codes "Tests completed with warnings. Success rate: "
      ++ percent report.success_rate
      ++ codes "% ("
      ++ show_nat report.success_count
      ++ codes "/"
      ++ show_nat report.total_iterations
      ++ codes "). "
      ++ show_nat (length report.warnings)
      ++ codes " warnings detected."
  summary_for fail report = codes "Tests failed: " ++ join (fail_reasons report) (codes ", ")
  summary_for (Verdict.other n) report = codes "Unknown verdict"

  unfoldable pub generate_summary : Report Float → Str
  generate_summary report = summary_for report.verdict report

  -- The report before its verdict and its summary are set: both have their zero values.
  unfoldable pub draft_of :
      ℤ
      → SuccessThresholds Float
      → ExecutionResult
      → List ExecutionResult
      → FailureAnalysis
      → List ValidationFailure
      → List ValidationFailure
      → List ValidationFailure
      → Report Float
  unfolding successes failures total_duration
  draft_of now t r rs found criticals warned infos =
      let results = r ∷ rs in
      let total = total_duration (pos 0) results in
      record {
        verdict = pass;
        summary = [];
        scenario_name = r.scenario_name;
        execution_time = now;
        duration = total;
        total_iterations = length results;
        success_count = successes results;
        failure_count = failures results;
        success_rate = float_div (float_of (successes results)) (float_of (length results));
        avg_duration = quot total (length results);
        critical_failures = criticals;
        warnings = warned;
        info_messages = infos;
        analysis = some found;
        thresholds = t;
      }

  unfoldable pub draft_report :
      MapOrder
      → ℤ
      → SuccessThresholds Float
      → ExecutionResult
      → List ExecutionResult
      → Result (Report Float)
  draft_report o now t r rs = do
    let results = r ∷ rs
    found ← analyze_failures o results
    criticals ← categorize_failures o t critical results
    warned ← categorize_failures o t warning results
    infos ← categorize_failures o t info results
    ok (draft_of now t r rs found criticals warned infos)

  unfoldable pub conclude : Report Float → Report Float
  unfolding determine_verdict generate_summary
  conclude report =
      let judged = record report { verdict = determine_verdict report report.thresholds } in
      record judged { summary = generate_summary judged }

  -- `now` is time.Now().
  unfoldable pub get_verdict :
      MapOrder → ℤ → Reporter → SuccessThresholds Float → Result (Report Float)
  get_verdict o now rp t = elim rp.results [
    | [] ↦ err (plain (codes "no execution results available"))
    | r ∷ rs ↦ elim (validate p t) [
      | err e ↦ err (wrapped (codes "invalid thresholds: ") e)
      | panic s ↦ panic s
      | ok _ ↦ draft_report o now t r rs >>= λ report. ok (conclude report)
    ]
  ]
