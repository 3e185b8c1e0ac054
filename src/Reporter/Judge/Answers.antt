-- ===== src/Reporter/Judge/Answers.antt =====
-- When GetVerdict has an answer, and the answer that names no reason (reporter.go).
use chaoskit.Prelude.{
  ◌≤◌, ◌≡◌, ◌↔◌, ap, ◌∙◌, ◌&&◌, ◌||◌, true, false, List, [], ◌∷◌, arith, length, ltb,
}
use chaoskit.Prelude.Int.{ℤ, pos, ltb_ℤ}
use chaoskit.Text.{codes, join}
use chaoskit.Errors.{ok}
use chaoskit.Platform.{Platform}
use chaoskit.Verdict.{fail, critical}
use chaoskit.Thresholds.{SuccessThresholds, validate}
use chaoskit.Execution.{ExecutionResult}
use chaoskit.Report.{Report}
use chaoskit.Reporter.Names.Keys.{IsUnambiguous}
use chaoskit.Reporter.Orders.{MapOrder, MapOrderLaws}
use chaoskit.Reporter.Failures.Spec.{AllSpeak}
use chaoskit.Reporter.Judge.{
  Reporter, get_verdict, failures, determine_verdict, draft_of, conclude, fail_reasons,
  generate_summary, summary_for,
}
use chaoskit.Reporter.Judge.Returns.{AllReadable, draft_returns}
use chaoskit.Reporter.Judge.Inversion.{get_verdict_needs}
use chaoskit.Reporter.Judge.Decision.{
  named_failures, rate_of, any-categorize, determine-deserved, get_verdict_ok,
}

module _ (p : Platform) (o : MapOrder) (now : ℤ) (t : SuccessThresholds p.Float) where
  reported :
      (rs : List ExecutionResult)
      → AllReadable rs
      → 1 ≤ length rs
      → validate p t ≡ ok tt
      → (report : Report p.Float) × (get_verdict p o now (record { results = rs }) t ≡ ok report)
  reported [] h n v = absurd omega (arith, n)
  reported (r ∷ rs) h n v =
      let (a, cs, ws, is, pc, pw, d) = draft_returns p o now t r rs h in
      (_, get_verdict_ok p o now t r rs _ v d)

  -- For results whose errors can be read, GetVerdict returns a report exactly when there is a result
  -- and the thresholds validate.
  pub get_verdict-report :
      (rp : Reporter)
      → AllReadable rp.results
      → ((report : Report p.Float) × (get_verdict p o now rp t ≡ ok report))
        ↔ ((1 ≤ length rp.results) × (validate p t ≡ ok tt))
  get_verdict-report rp h = (
    λ (report, e). get_verdict_needs p o now t rp.results report e,
    λ (n, v). reported rp.results h n v,
  )

-- A FAIL for which no reason of generateSummary holds.
unexplained :
    (p : Platform) (report : Report p.Float)
    → report.verdict ≡ fail
    → ltb 0 (length report.critical_failures) ≡ false
    → p.float_lt report.success_rate report.thresholds.min_success_rate ≡ false
    → generate_summary p report ≡ codes "Tests failed: "
unfolding generate_summary summary_for fail_reasons join
unexplained p report v c f = ground arith

module _ (p : Platform) (o : MapOrder) (laws : MapOrderLaws o) (now : ℤ)
    (t : SuccessThresholds p.Float) where
  -- For valid thresholds and results whose errors can be read and name validators unambiguously:
  -- when no error names a critical validator and the success rate is not too low, but too many
  -- iterations failed or all had to pass and some failed, GetVerdict returns a report with the
  -- verdict FAIL, whose summary names no reason.
  pub summary_without_reason :
      (r : ExecutionResult) (rs : List ExecutionResult)
      → validate p t ≡ ok tt
      → AllReadable (r ∷ rs)
      → AllSpeak IsUnambiguous (r ∷ rs)
      → named_failures p t critical (r ∷ rs) ≡ 0
      → p.float_lt (rate_of p t (r ∷ rs)) t.min_success_rate ≡ false
      → ((ltb_ℤ (pos 0) t.max_failed_iterations
            && ltb_ℤ t.max_failed_iterations (pos (failures (r ∷ rs))))
          || (t.require_all_validators_passing && ltb 0 (failures (r ∷ rs))))
        ≡ true
      → (report : Report p.Float) × (get_verdict p o now (record { results = r ∷ rs }) t
          ≡ ok report)
        × (report.verdict ≡ fail)
        × (report.summary ≡ codes "Tests failed: ")
  unfolding conclude draft_of
  summary_without_reason r rs v h c none_critical rate over =
      let (a, cs, ws, is, pc, pw, d) = draft_returns p o now t r rs h in
      let draft = draft_of p now t r rs a cs ws is in
      let judged : determine_verdict p draft t ≡ fail =
        determine-deserved p o laws now t r rs a cs ws is c pc pw ∙ ground arith in
      (
        conclude p draft,
        get_verdict_ok p o now t r rs _ v d,
        judged,
        unexplained p _ judged
            (any-categorize o laws t critical (r ∷ rs) cs c pc ∙ ap (λ n. ltb 0 n) none_critical)
            rate,
      )
