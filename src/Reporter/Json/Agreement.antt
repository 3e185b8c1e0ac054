-- ===== src/Reporter/Json/Agreement.antt =====
-- The JSON report and the verdict report of the same results (reporter.go).
use chaoskit.Prelude.{◌+◌, ◌≡◌, refl, true, List, [], ◌∷◌, arith, length, ltb}
use chaoskit.Prelude.Int.{ℤ}
use chaoskit.Errors.{ok}
use chaoskit.Platform.{Platform}
use chaoskit.Thresholds.{SuccessThresholds}
use chaoskit.Execution.{ExecutionResult}
use chaoskit.Report.{Report, ValidationFailure, FailureAnalysis}
use chaoskit.Reporter.Orders.{MapOrder}
use chaoskit.Reporter.Judge.{Reporter, get_verdict, conclude, draft_of}
use chaoskit.Reporter.Judge.Counts.{successes-failures}
use chaoskit.Reporter.Judge.Inversion.{get_verdict_form}
use chaoskit.Reporter.Json.{JsonStats, json_stats, json_results, milliseconds}

length-json_results : (rs : List ExecutionResult) → length (json_results rs) ≡ length rs
unfolding json_results
length-json_results [] = refl
length-json_results (r ∷ rs) = omega (arith, length-json_results rs)

nonempty : (r : ExecutionResult) (rs : List ExecutionResult) → ltb 0 (length (r ∷ rs)) ≡ true
nonempty r rs = ground arith

module _ (p : Platform) (o : MapOrder) (now : ℤ) (t : SuccessThresholds p.Float) where
  abbrev AgreesWith : JsonStats → Report p.Float → Type 0
  AgreesWith s report =
      (s.total ≡ report.total_iterations)
      × (s.success ≡ report.success_count)
      × (s.failed ≡ report.failure_count)
      × (s.avg_duration ≡ milliseconds report.avg_duration)
      × (s.success + s.failed ≡ s.total)
      × (length s.executions ≡ s.total)

  drafted :
      (results : List ExecutionResult) (report : Report p.Float) (r : ExecutionResult)
      (rs : List ExecutionResult) (a : FailureAnalysis) (cs ws is : List ValidationFailure)
      → results ≡ r ∷ rs
      → report ≡ conclude p (draft_of p now t r rs a cs ws is)
      → AgreesWith (json_stats (record { results = results })) report
  unfolding json_stats conclude draft_of
  drafted results report r rs a cs ws is e f =
      rw (e, f)
        (
          refl,
          refl,
          refl,
          rw (nonempty r rs) refl,
          successes-failures (r ∷ rs),
          length-json_results (r ∷ rs),
        )

  -- When GetVerdict returns a report, the statistics of GenerateJSON for the same results are those
  -- of the report: the total, the successes, the failures, which add up to the total, and the
  -- average duration in milliseconds; and the JSON lists one execution for each result.
  pub json_stats-get_verdict :
      (rp : Reporter) (report : Report p.Float)
      → get_verdict p o now rp t ≡ ok report
      → ((json_stats rp).total ≡ report.total_iterations)
        × ((json_stats rp).success ≡ report.success_count)
        × ((json_stats rp).failed ≡ report.failure_count)
        × ((json_stats rp).avg_duration ≡ milliseconds report.avg_duration)
        × ((json_stats rp).success + (json_stats rp).failed ≡ (json_stats rp).total)
        × (length (json_stats rp).executions ≡ (json_stats rp).total)
  json_stats-get_verdict rp report e =
      let (r, rs, a, cs, ws, is, er, f) = get_verdict_form p o now t rp report e in
      drafted rp.results report r rs a cs ws is er f
