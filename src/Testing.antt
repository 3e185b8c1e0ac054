-- ===== src/Testing.antt =====
-- testing/testing.go: RunChaos, which runs a scenario inside a Go test and fails the test by the
-- run's error or by its verdict; and core.go: Run, which prints the plain report.
pub mod Verdicts
use chaoskit.Prelude.{
  ℕ, Bool, true, false, ◌&&◌, not, Option, none, some, List, [], ◌∷◌, ◌++◌, if◌then◌else◌,
}
use chaoskit.Prelude.Int.{ℤ, pos}
use chaoskit.Text.{Str, codes}
use chaoskit.Errors.{Error, message, Result, ok, err, panic, plain}
use chaoskit.Platform.{Platform}
use chaoskit.Verdict.{Verdict, pass, fail}
use chaoskit.Thresholds.{
  SuccessThresholds, default_thresholds, strict_thresholds, relaxed_thresholds,
}
use chaoskit.Report.{Report}
use chaoskit.Exec.{Exec, Outcome, pure, panics, ◌>>=◌}
use chaoskit.Host.{Host, Context}
use chaoskit.Scenario.{Scenario, new_scenario, with_target, step, inject, assert, repeat}
use chaoskit.Reporter.Orders.{MapOrder}
use chaoskit.Reporter.Judge.{Reporter, get_verdict}
use chaoskit.Reporter.Printing.{generate_report, generate_text_report, newline}
use chaoskit.Executor.{
  State, Executor, ExecutorOption, FailurePolicy, fail_fast, with_failure_policy, new_executor,
}
use chaoskit.Executor.Run.{run}

pub record ChaosTestConfig (Float : Type 0) : Type 0 where
  pub repeat : ℤ
  pub failure_policy : FailurePolicy
  pub executor_opts : List ExecutorOption
  pub skip_report : Bool
  pub report_to_stderr : Bool
  pub thresholds : Option (SuccessThresholds Float)
  pub skip_verdict : Bool

-- What happens to the TestingT: the texts of Errorf and of Logf, and whether FailNow was called,
-- which ends the test.
pub record TestLog : Type 0 where
  pub errors : List Str
  pub logs : List Str
  pub failed_now : Bool

silent : TestLog
silent = record { errors = []; logs = []; failed_now = false }

errorf : Str → TestLog → TestLog
errorf text t = record t { errors = t.errors ++ text ∷ [] }

-- `logs` tells whether the TestingT has a method Logf.
logf : Bool → Str → TestLog → TestLog
logf logs text t = record t { logs = if logs then t.logs ++ (newline ++ text) ∷ [] else t.logs }

fail_now : TestLog → TestLog
fail_now t = record t { failed_now = true }

module _ (p : Platform) where
  open p use {Float}

  abbrev pub ChaosTestOption : Type 0
  ChaosTestOption = ChaosTestConfig Float → ChaosTestConfig Float

  unfoldable pub with_repeat : ℤ → ChaosTestOption
  with_repeat n c = record c { repeat = n }

  unfoldable pub with_test_policy : FailurePolicy → ChaosTestOption
  with_test_policy policy c = record c { failure_policy = policy }

  unfoldable pub with_executor_options : List ExecutorOption → ChaosTestOption
  with_executor_options opts c = record c { executor_opts = c.executor_opts ++ opts }

  unfoldable pub without_report : ChaosTestOption
  without_report c = record c { skip_report = true }

  unfoldable pub with_report_to_stderr : ChaosTestOption
  with_report_to_stderr c = record c { report_to_stderr = true }

  unfoldable pub with_thresholds : Option (SuccessThresholds Float) → ChaosTestOption
  with_thresholds t c = record c { thresholds = t }

  unfoldable pub with_default_thresholds : ChaosTestOption
  with_default_thresholds c = record c { thresholds = some (default_thresholds p) }

  unfoldable pub with_strict_thresholds : ChaosTestOption
  with_strict_thresholds c = record c { thresholds = some (strict_thresholds p) }

  unfoldable pub with_relaxed_thresholds : ChaosTestOption
  with_relaxed_thresholds c = record c { thresholds = some (relaxed_thresholds p) }

  unfoldable pub without_verdict : ChaosTestOption
  without_verdict c = record c { skip_verdict = true }

  initial : ChaosTestConfig Float
  initial = record {
    repeat = pos 1;
    failure_policy = fail_fast;
    executor_opts = [];
    skip_report = false;
    report_to_stderr = false;
    thresholds = some (default_thresholds p);
    skip_verdict = false;
  }

  configured : ChaosTestConfig Float → List ChaosTestOption → ChaosTestConfig Float
  configured c [] = c
  configured c (opt ∷ opts) = configured (opt c) opts

  unfoldable pub config_of : List ChaosTestOption → ChaosTestConfig Float
  unfolding initial configured
  config_of opts = configured initial opts

  module _ (o : MapOrder) (now : ℤ) (logs : Bool) (rp : Reporter) where
    -- GetVerdict; nil thresholds are dereferenced once there are results.
    verdict_of : Option (SuccessThresholds Float) → Result (Report Float)
    verdict_of (some t) = get_verdict p o now rp t
    verdict_of none = elim rp.results [
      | [] ↦ err (plain (codes "no execution results available"))
      | r ∷ rs ↦ panic (codes "runtime error: invalid memory address or nil pointer dereference")
    ]

    detailed : Result (Report Float) → TestLog → Result TestLog
    unfolding logf
    detailed (ok report) t = ok (logf logs (generate_text_report p report) t)
    detailed (err e) t = ok (
        logf logs (generate_report p rp)
          (logf logs (codes "Failed to generate verdict: " ++ message e) t))
    detailed (panic v) t = panic v

    unfoldable pub print_report : ChaosTestConfig Float → TestLog → Result TestLog
    unfolding detailed verdict_of logf
    print_report c t =
        if c.skip_verdict
        then ok (logf logs (generate_report p rp) t)
        else detailed (verdict_of c.thresholds) t

    judged : Bool → Result (Report Float) → TestLog → Result (Verdict × TestLog)
    unfolding errorf logf
    judged skip (ok report) t =
        ok (report.verdict, if skip then t else logf logs (generate_text_report p report) t)
    judged skip (err e) t = ok (fail, errorf (codes "failed to generate verdict: " ++ message e) t)
    judged skip (panic v) t = panic v

    unfoldable pub evaluate_verdict : ChaosTestConfig Float → TestLog → Result (Verdict × TestLog)
    unfolding judged verdict_of
    evaluate_verdict c t =
        if c.skip_verdict then ok (pass, t) else judged c.skip_report (verdict_of c.thresholds) t

    fails_on : Verdict → TestLog → TestLog
    unfolding errorf fail_now
    fails_on fail t = fail_now (errorf (codes "chaos test verdict: FAIL") t)
    fails_on v t = t

    failed_run : Error → ChaosTestConfig Float → Result TestLog
    unfolding errorf silent print_report
    failed_run e c =
        let t = errorf (codes "chaos test execution failed: " ++ message e) silent in
        if c.skip_report then ok t else print_report c t

    concluded : Result (Verdict × TestLog) → Result TestLog
    unfolding fails_on
    concluded (ok (v, t)) = ok (fails_on v t)
    concluded (err e) = err e
    concluded (panic v) = panic v

    ended : Result TestLog → Result TestLog
    unfolding fail_now
    ended (ok t) = ok (fail_now t)
    ended (err e) = err e
    ended (panic v) = panic v

    -- What RunChaos does with the answer of Executor.Run.
    unfoldable pub after_run : Option Error → ChaosTestConfig Float → Result TestLog
    unfolding ended failed_run concluded evaluate_verdict silent
    after_run (some e) c = ended (failed_run e c)
    after_run none c =
        if c.skip_report && c.skip_verdict then ok silent else concluded (evaluate_verdict c silent)

  unfoldable pub test_scenario :
      Str → Option ℕ → (Scenario → Scenario) → ChaosTestConfig Float → Scenario
  test_scenario name target build c =
      repeat (build (with_target (new_scenario name) target)) c.repeat

  unfoldable pub test_executor : ChaosTestConfig Float → Executor
  test_executor c = new_executor (with_failure_policy c.failure_policy ∷ c.executor_opts)

  abbrev pub state_of : {W : Type 0} → Executor → W → State W
  state_of e w = record { world = w; metrics = e.metrics; reporter = e.reporter }

  module _ {W : Type 0} (h : Host W) (o : MapOrder) (now : ℤ) (logs : Bool) (fuel : ℕ) where
    unfoldable pub handed : Result TestLog → Exec (State W) (Option TestLog)
    handed (ok t) s = pure (some t) s
    handed (err x) s = (panics (message x), s)
    handed (panic v) s = (panics v, s)

    unfoldable pub reported :
        ChaosTestConfig Float → Option (Option Error) → Exec (State W) (Option TestLog)
    reported c none s = pure none s
    reported c (some e) s = handed (after_run o now logs s.reporter e c) s

    -- `none` is a duration-based run that used up its fuel.
    unfoldable pub run_chaos :
        Str
        → Option ℕ
        → (Scenario → Scenario)
        → Context W
        → List ChaosTestOption
        → W
        → Outcome (Option TestLog) × State W
    unfolding reported handed config_of test_scenario test_executor
    run_chaos name target build background opts w =
        let c = config_of opts in
        (run h (test_executor c).failure_policy fuel (test_scenario name target build c) background
            >>= reported c)
          (state_of (test_executor c) w)

  -- RunChaosSimple: the builder that adds the given steps, injectors and validators.
  each : (Scenario → ℕ → Scenario) → List ℕ → Scenario → Scenario
  each add [] sc = sc
  each add (x ∷ xs) sc = each add xs (add sc x)

  unfoldable pub simple_build : List ℕ → List ℕ → List ℕ → Scenario → Scenario
  unfolding each
  simple_build steps injectors validators sc =
      each assert validators (each inject injectors (each step steps sc))
