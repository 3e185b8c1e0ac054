-- ===== src/Testing/Verdicts.antt =====
-- When RunChaos fails the test (testing/testing.go).
use chaoskit.Prelude.{
  ℕ, ◌≤◌, ◌≡◌, refl, sym, ap, ◌∙◌, subst, inl, inr, Bool, true, false, ◌||◌, ◌&&◌, Option, none,
  some, List, [], ◌++◌, length, if◌then◌else◌,
}
use chaoskit.Prelude.Int.{ℤ}
use chaoskit.Text.{Str, codes}
use chaoskit.Errors.{Error, message, Result, ok}
use chaoskit.Platform.{Platform}
use chaoskit.Verdict.{Verdict, pass, unstable, fail}
use chaoskit.Thresholds.{SuccessThresholds, validate}
use chaoskit.Report.{Report}
use chaoskit.Execution.{ExecutionResult}
use chaoskit.Exec.{Exec, returns, continue, ◌>>=◌}
use chaoskit.Host.{Host, Context}
use chaoskit.Scenario.{Scenario}
use chaoskit.Reporter.Orders.{MapOrder, MapOrderLaws}
use chaoskit.Reporter.Judge.{Reporter, get_verdict}
use chaoskit.Reporter.Judge.Decision.{deserved, IsJudged}
use chaoskit.Executor.{State, new_executor, with_failure_policy}
use chaoskit.Executor.Run.{run}
use chaoskit.Executor.Books.{fresh}
use chaoskit.Pipeline.{AllReported, run-get_verdict}
use chaoskit.Testing.{
  ChaosTestConfig, ChaosTestOption, TestLog, config_of, test_scenario, test_executor, state_of,
  run_chaos, reported, handed, after_run, verdict_of, detailed, judged, print_report,
  evaluate_verdict, fails_on, failed_run, concluded, ended, silent, errorf, logf, fail_now,
}

abbrev pub is_some : Option Error → Bool
is_some none = false
is_some (some e) = true

abbrev pub is_fail : Verdict → Bool
is_fail fail = true
is_fail v = false

module _ (p : Platform) (o : MapOrder) (now : ℤ) (logs : Bool) (rp : Reporter)
    (c : ChaosTestConfig p.Float) (t : SuccessThresholds p.Float) (report : Report p.Float)
    (chosen : c.thresholds ≡ some t) (wanted : c.skip_verdict ≡ false)
    (given : get_verdict p o now rp t ≡ ok report) where
  known : verdict_of p o now logs rp c.thresholds ≡ ok report
  unfolding verdict_of
  known = rw chosen given

  Fails : Bool → Result TestLog → Type 0
  Fails b r = (T : TestLog) × (r ≡ ok T) × (T.failed_now ≡ b)

  print_returns : (l : TestLog) → (T : TestLog) × (print_report p o now logs rp c l ≡ ok T)
  unfolding print_report detailed
  print_returns l = rw (wanted, known) (_, refl)

  failed_returns : (e : Error) → (T : TestLog) × (failed_run p o now logs rp e c ≡ ok T)
  unfolding failed_run
  failed_returns e =
      choose c.skip_report _ _
        (print_returns (errorf (codes "chaos test execution failed: " ++ message e) silent))
    where
      choose :
          (b : Bool) (l : TestLog) (r : Result TestLog)
          → (T : TestLog) × (r ≡ ok T)
          → (T : TestLog) × ((if b then ok l else r) ≡ ok T)
      choose true l r q = (l, refl)
      choose false l r q = q

  fails_on-failed :
      (v : Verdict) (l : TestLog)
      → l.failed_now ≡ false
      → (fails_on p o now logs rp v l).failed_now ≡ is_fail v
  unfolding fails_on errorf fail_now
  fails_on-failed pass l e = e
  fails_on-failed unstable l e = e
  fails_on-failed fail l e = refl
  fails_on-failed (Verdict.other n) l e = e

  judged_quiet :
      (skip : Bool) (l : TestLog)
      → l.failed_now ≡ false
      → (l' : TestLog) × (judged p o now logs rp skip (ok report) l ≡ ok (report.verdict, l'))
        × (l'.failed_now ≡ false)
  unfolding judged logf
  judged_quiet true l e = (l, refl, e)
  judged_quiet false l e = (_, refl, e)

  evaluated :
      (l : TestLog) × (evaluate_verdict p o now logs rp c silent ≡ ok (report.verdict, l))
      × (l.failed_now ≡ false)
  unfolding evaluate_verdict silent
  evaluated = rw (wanted, known) (judged_quiet c.skip_report silent refl)

  concluded-Fails :
      Fails
        (is_fail report.verdict)
        (concluded p o now logs rp (evaluate_verdict p o now logs rp c silent))
  unfolding concluded Fails
  concluded-Fails =
      let (l, q, quiet) = evaluated in rw q (_, refl, fails_on-failed report.verdict l quiet)

  unless_skipped :
      (a b v : Bool) (m n : Result TestLog)
      → b ≡ false
      → Fails v n
      → Fails v (if a && b then m else n)
  unless_skipped true true v m n e x = cc
  unless_skipped false true v m n e x = cc
  unless_skipped true false v m n e x = x
  unless_skipped false false v m n e x = x

  pub after_run-fails :
      (e : Option Error)
      → (T : TestLog) × (after_run p o now logs rp e c ≡ ok T)
        × (T.failed_now ≡ (is_some e || is_fail report.verdict))
  unfolding after_run ended fail_now Fails
  after_run-fails (some e) = let (l, q) = failed_returns e in rw q (_, refl, refl)
  after_run-fails none =
      unless_skipped c.skip_report c.skip_verdict (is_fail report.verdict) _ _ wanted
        concluded-Fails

-- A verdict is FAIL exactly when the results deserve FAIL.
same_failure :
    (p : Platform) (t : SuccessThresholds p.Float) (rs : List ExecutionResult) (v : Verdict)
    → IsJudged p t rs v
    → is_fail v ≡ is_fail (deserved p t rs)
same_failure p t rs v (e, inl d) = ap is_fail d
same_failure p t rs v (e, inr (slow, d, q)) = ap is_fail q ∙ sym (ap is_fail d)

module _ {W : Type 0} (h : Host W) (p : Platform) (o : MapOrder) (laws : MapOrderLaws o) (now : ℤ)
    (logs : Bool) (fuel : ℕ) where
  started_as_new :
      (c : ChaosTestConfig p.Float) (sc : Scenario) (w : W)
      → c.executor_opts ≡ []
      → (state_of p (test_executor p c) w ≡ fresh h sc w)
        × ((test_executor p c).failure_policy ≡ c.failure_policy)
  unfolding test_executor new_executor with_failure_policy
  started_as_new c sc w e = rw e (refl, refl)

  answered :
      (c : ChaosTestConfig p.Float) (e : Option Error) (s : State W) (T : TestLog)
      → after_run p o now logs s.reporter e c ≡ ok T
      → reported p h o now logs fuel c (some e) s ≡ (returns (some T), s)
  unfolding reported handed
  answered c e s T q = ap (λ r. handed p h o now logs fuel r s) q

  same_run :
      (c : ChaosTestConfig p.Float) (sc : Scenario) (ctx : Context W) (w : W) (e : Option Error)
      (s : State W)
      → c.executor_opts ≡ []
      → run h c.failure_policy fuel sc ctx (fresh h sc w) ≡ (returns (some e), s)
      → run h (test_executor p c).failure_policy fuel sc ctx (state_of p (test_executor p c) w)
        ≡ (returns (some e), s)
  same_run c sc ctx w e s plain ran =
      let (start, policy) = started_as_new c sc w plain in
      ap (λ x. run h x fuel sc ctx (state_of p (test_executor p c) w)) policy
      ∙ (ap (λ x. run h c.failure_policy fuel sc ctx x) start ∙ ran)

  returned :
      {A B : Type 0} (m : Exec (State W) A) (f : A → Exec (State W) B) (start : State W) (a : A)
      (s : State W)
      → m start ≡ (returns a, s)
      → (m >>= f) start ≡ f a s
  unfolding ◌>>=◌
  returned m f start a s e = ap (λ x. continue f x.0 x.1) e

  -- RunChaos with no executor options, not told to skip the verdict, with valid thresholds and a
  -- scenario whose validators' names are printable, without spaces and colons, and unambiguous:
  -- where Executor.Run ends with the error or success `e`, and at least one execution has ended,
  -- RunChaos returns, and it has failed the test exactly when Run answered an error or the results
  -- deserve the verdict FAIL.
  pub run_chaos-fails :
      (name : Str) (target : Option ℕ) (build : Scenario → Scenario) (ctx : Context W)
      (opts : List (ChaosTestOption p)) (w : W) (t : SuccessThresholds p.Float) (e : Option Error)
      (s : State W)
      → (config_of p opts).executor_opts ≡ []
      → (config_of p opts).thresholds ≡ some t
      → (config_of p opts).skip_verdict ≡ false
      → validate p t ≡ ok tt
      → AllReported h (test_scenario p name target build (config_of p opts)).validators
      → run h
          (config_of p opts).failure_policy
          fuel
          (test_scenario p name target build (config_of p opts))
          ctx
          (fresh h (test_scenario p name target build (config_of p opts)) w)
        ≡ (returns (some e), s)
      → 1 ≤ length s.reporter.results
      → (T : TestLog) × (run_chaos p h o now logs fuel name target build ctx opts w
          ≡ (returns (some T), s))
        × (T.failed_now ≡ (is_some e || is_fail (deserved p t s.reporter.results)))
  unfolding run_chaos
  run_chaos-fails name target build ctx opts w t e s plain chosen wanted valid names ran
        some_result =
      let c = config_of p opts in
      let sc = test_scenario p name target build c in
      let (report, g, d, k) =
        run-get_verdict h p o laws now t c.failure_policy fuel sc ctx w valid names
          (subst (λ x. 1 ≤ length x.1.reporter.results) (sym ran) some_result) in
      let (T, q, failed) =
        after_run-fails p o now logs s.reporter c t report chosen wanted
          (subst (λ x. get_verdict p o now x.1.reporter t ≡ ok report) ran g) e in
      let judged = subst (λ x. IsJudged p t x.1.reporter.results report.verdict) ran d in
      (
        T,
        returned (run h (test_executor p c).failure_policy fuel sc ctx)
              (reported p h o now logs fuel c) (state_of p (test_executor p c) w) (some e) s
              (same_run c sc ctx w e s plain ran)
            ∙ answered c e s T q,
        failed
            ∙ ap (λ b. is_some e || b) (same_failure p t s.reporter.results report.verdict judged),
      )
