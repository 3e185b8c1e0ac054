-- ===== src/Pipeline.antt =====
-- From a run to its verdict: the errors that executor.go writes are those that reporter.go reads.
use chaoskit.Prelude.{
  ℕ, ◌+◌, ◌≤◌, ◌≡◌, refl, sym, ap, ◌∙◌, inl, inr, false, Option, some, List, [], ◌∷◌, arith, All,
  Any, length, subst,
}
use chaoskit.Prelude.Int.{ℤ}
use chaoskit.Text.{Str, contains}
use chaoskit.Text.Search.{IsPlain}
use chaoskit.Errors.{Error, ok}
use chaoskit.Platform.{Platform}
use chaoskit.Verdict.{fail, exit_code, critical, severity_eq}
use chaoskit.Thresholds.{SuccessThresholds, validate, type_unknown}
use chaoskit.Execution.{ExecutionResult, validator_failed}
use chaoskit.Host.{Host, Context}
use chaoskit.Report.{Report}
use chaoskit.Reporter.Names.{plain_name}
use chaoskit.Reporter.Names.Keys.{IsUnambiguous}
use chaoskit.Reporter.Names.RoundTrip.{extract-validator_failed, extract-step_failed}
use chaoskit.Reporter.Orders.{MapOrder, MapOrderLaws}
use chaoskit.Reporter.Failures.Spec.{IsReadable, Speaks, AllSpeak, blamed, times}
use chaoskit.Reporter.Failures.Categorize.{ok-injective, of_severity, severity_of}
use chaoskit.Reporter.Judge.{get_verdict}
use chaoskit.Reporter.Judge.Returns.{AllReadable}
use chaoskit.Reporter.Judge.Decision.{verdict_for, IsJudged, get_verdict-deserved, any_name}
use chaoskit.Scenario.{Scenario}
use chaoskit.Metrics.Exact.{counted}
use chaoskit.Executor.{State, FailurePolicy}
use chaoskit.Executor.Outcomes.{IsExecution, StepBlamed, ValidatorBlamed}
use chaoskit.Executor.Books.{Balanced, fresh, run-Balanced}
use chaoskit.Executor.Run.{run}

-- The name can be read back from a message, and stands for one validator in every map order.
pub record IsReported (name : Str) : Type 0 where
  pub plain : All IsPlain name
  pub unambiguous : IsUnambiguous name

unknown-IsUnambiguous : IsUnambiguous type_unknown
unfolding plain_name contains
unknown-IsUnambiguous = (
  type_unknown,
  (
    (λ e. cc),
    ((λ e. cc), ((λ e. cc), ((λ e. cc), ((λ e. cc), ((λ e. cc), ((λ e. cc), ((λ e. cc), tt))))))),
  ),
)

module _ {W : Type 0} (h : Host W) where
  -- Every validator of the scenario has such a name.
  abbrev pub AllReported : List ℕ → Type 0
  AllReported = All (λ v. IsReported (h.validator_name v))

  blamed_name :
      (vs : List ℕ) (name : Str)
      → AllReported vs
      → Any (λ v. h.validator_name v ≡ name) vs
      → IsReported name
  blamed_name [] name a m = absurd m
  blamed_name (v ∷ vs) name a (inl e) = subst IsReported e a.0
  blamed_name (v ∷ vs) name a (inr m) = blamed_name vs name a.1 m

  Reads : Option Error → Type 0
  Reads o = IsReadable o × Speaks IsUnambiguous o

  step-Reads : (steps : List ℕ) (i : ℕ) (e : Error) → StepBlamed h steps i e → Reads (some e)
  unfolding Reads
  step-Reads steps i e b =
      subst (λ x. Reads (some x)) (sym b.shape)
        (
          (type_unknown, extract-step_failed (h.step_name b.step) b.cause),
          λ v p.
              subst IsUnambiguous
                (ok-injective (sym (extract-step_failed (h.step_name b.step) b.cause) ∙ p))
                unknown-IsUnambiguous,
        )

  validator-Reads :
      (vs : List ℕ) (e : Error) → AllReported vs → ValidatorBlamed h vs e → Reads (some e)
  unfolding Reads
  validator-Reads vs e a b =
      let known = blamed_name vs b.name a b.place in
      let read = extract-validator_failed b.name b.cause known.plain in
      subst (λ x. Reads (some x)) (sym b.shape)
        ((b.name, read), λ v p. subst IsUnambiguous (ok-injective (sym read ∙ p)) known.unambiguous)

  execution-Reads :
      (sc : Scenario) (r : ExecutionResult)
      → AllReported sc.validators
      → IsExecution h sc r
      → Reads r.error
  unfolding Reads
  execution-Reads sc r a x = elim x.explained [
    | inl (s, e, n) ↦ subst Reads (sym e) (tt, tt)
    | inr (inl (s, e, p, b)) ↦ subst Reads (sym p) (step-Reads sc.steps r.steps_executed e b)
    | inr (inr (s, e, p, n, b)) ↦ subst Reads (sym p) (validator-Reads sc.validators e a b)
  ]

  All-Reads :
      (sc : Scenario) (rs : List ExecutionResult)
      → AllReported sc.validators
      → All (IsExecution h sc) rs
      → AllReadable rs × AllSpeak IsUnambiguous rs
  unfolding Reads
  All-Reads sc [] a x = (tt, tt)
  All-Reads sc (r ∷ rs) a x =
      let (p, q) = execution-Reads sc r a x.0 in
      let (ps, qs) = All-Reads sc rs a x.1 in ((p, ps), (q, qs))

-- The result's error is that of a validator which the thresholds call critical.
pub record BlamesCritical {Float : Type 0} (t : SuccessThresholds Float) (r : ExecutionResult)
    : Type 0 where
  pub name : Str
  pub cause : Error
  pub plain : All IsPlain name
  pub failed : r.error ≡ some (validator_failed name cause)
  pub critical : severity_of t name ≡ critical

module _ (p : Platform) (t : SuccessThresholds p.Float) where
  blamed_once :
      (r : ExecutionResult)
      → BlamesCritical t r
      → blamed (of_severity t critical any_name) r.error ≡ 1
  unfolding severity_eq
  blamed_once r b =
      rw (b.failed, extract-validator_failed b.name b.cause b.plain, b.critical, severity_eq) refl

  critical_named :
      (rs : List ExecutionResult)
      → Any (BlamesCritical t) rs
      → 1 ≤ times (of_severity t critical any_name) rs
  critical_named [] m = absurd m
  critical_named (r ∷ rs) (inl b) = omega (arith, blamed_once r b)
  critical_named (r ∷ rs) (inr m) = omega (arith, critical_named rs m)

  critical_fails :
      (rs : List ExecutionResult) → Any (BlamesCritical t) rs → verdict_for p t false rs ≡ fail
  critical_fails rs m = ground (arith, critical_named rs m)

Any-length : {A : Type 0} (P : A → Type 0) (l : List A) → Any P l → 1 ≤ length l
Any-length P [] m = absurd m
Any-length P (x ∷ l) m = omega arith

module _ {W : Type 0} (h : Host W) (p : Platform) (o : MapOrder) (laws : MapOrderLaws o) (now : ℤ)
    (t : SuccessThresholds p.Float) where
  get_verdict_of :
      (rs : List ExecutionResult)
      → validate p t ≡ ok tt
      → AllReadable rs × AllSpeak IsUnambiguous rs
      → 1 ≤ length rs
      → (report : Report p.Float) × (get_verdict p o now (record { results = rs }) t ≡ ok report)
        × IsJudged p t rs report.verdict
        × (report.success_count + report.failure_count ≡ length rs)
  get_verdict_of [] v a n = absurd omega (arith, n)
  get_verdict_of (r ∷ rs) v (a, b) n = get_verdict-deserved p o laws now t r rs v a b

  Balanced-get_verdict :
      (sc : Scenario) (s : State W)
      → validate p t ≡ ok tt
      → AllReported h sc.validators
      → Balanced h sc s
      → 1 ≤ length s.reporter.results
      → (report : Report p.Float) × (get_verdict p o now s.reporter t ≡ ok report)
        × IsJudged p t s.reporter.results report.verdict
        × (s.metrics.total_executions ≡ counted (report.success_count + report.failure_count))
  Balanced-get_verdict sc s v a b n =
      let (report, e, d, c) =
        get_verdict_of s.reporter.results v (All-Reads h sc s.reporter.results a b.executions) n in
      (report, e, d, b.agrees.executions ∙ ap counted (sym c))

  -- A new executor runs a scenario whose validators' names are printable, without spaces and
  -- colons, and unambiguous, and at least one execution ends. Then GetVerdict, with valid
  -- thresholds and in whatever order Go visits its maps, returns a report whose verdict is the one
  -- that the results deserve, but for an average duration over its maximum, which is not looked at
  -- (where nothing else is amiss, the verdict is PASS and the results deserve UNSTABLE); and whose
  -- counts add up to the executions that the metrics have counted in a 64-bit int.
  pub run-get_verdict :
      (policy : FailurePolicy) (fuel : ℕ) (sc : Scenario) (ctx : Context W) (w : W)
      → validate p t ≡ ok tt
      → AllReported h sc.validators
      → 1 ≤ length (run h policy fuel sc ctx (fresh h sc w)).1.reporter.results
      → (report : Report p.Float) × (get_verdict p o now
            (run h policy fuel sc ctx (fresh h sc w)).1.reporter
            t
          ≡ ok report)
        × IsJudged p t (run h policy fuel sc ctx (fresh h sc w)).1.reporter.results report.verdict
        × ((run h policy fuel sc ctx (fresh h sc w)).1.metrics.total_executions
            ≡ counted (report.success_count + report.failure_count))
  run-get_verdict policy fuel sc ctx w v a n =
      Balanced-get_verdict sc _ v a (run-Balanced h sc policy fuel ctx w) n

  -- A new executor runs a scenario whose validators' names are printable, without spaces and
  -- colons, and unambiguous, and some execution ends with the error of a validator that the
  -- thresholds call critical. Then GetVerdict, with valid thresholds and in whatever order Go
  -- visits its maps, returns a report with the verdict FAIL, whose exit code is 1.
  pub run-critical_fails :
      (policy : FailurePolicy) (fuel : ℕ) (sc : Scenario) (ctx : Context W) (w : W)
      → validate p t ≡ ok tt
      → AllReported h sc.validators
      → Any (BlamesCritical t) (run h policy fuel sc ctx (fresh h sc w)).1.reporter.results
      → (report : Report p.Float) × (get_verdict p o now
            (run h policy fuel sc ctx (fresh h sc w)).1.reporter
            t
          ≡ ok report)
        × (report.verdict ≡ fail)
        × (exit_code report.verdict ≡ 1)
  unfolding exit_code
  run-critical_fails policy fuel sc ctx w v a m =
      let (report, e, d, c) =
        Balanced-get_verdict sc _ v a (run-Balanced h sc policy fuel ctx w) (Any-length _ _ m) in
      let f = d.0 ∙ critical_fails p t _ m in (report, e, f, ap exit_code f)
