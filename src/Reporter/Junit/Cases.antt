-- ===== src/Reporter/Junit/Cases.antt =====
-- How the attributes of a test suite compare with its test cases (reporter_junit.go).
use chaoskit.Prelude.{
  ℕ, ◌+◌, ◌≡◌, refl, Bool, true, false, Option, none, some, List, [], ◌∷◌, ◌++◌, map, arith, length,
  ltb, if◌then◌else◌, ◌&&◌,
}
use chaoskit.Prelude.Int.{ℤ, pos, ltb_ℤ}
use chaoskit.Errors.{ok}
use chaoskit.Platform.{Platform}
use chaoskit.Verdict.{Verdict, pass, unstable, fail, exit_code}
use chaoskit.Thresholds.{SuccessThresholds}
use chaoskit.Report.{Report, ValidationFailure}
use chaoskit.Reporter.Orders.{MapOrder}
use chaoskit.Reporter.Judge.{Reporter, get_verdict, determine_verdict, conclude, draft_of}
use chaoskit.Reporter.Judge.Inversion.{get_verdict_form}
use chaoskit.Reporter.Junit.{
  JunitTestCase, junit_suite, verdict_case, verdict_failure, verdict_error, failure_case,
  warning_case,
}

abbrev holds_one {ℓ} : {A : Type ℓ} → Option A → ℕ
holds_one none = 0
holds_one (some a) = 1

module _ {Float : Type 0} where
  -- The test cases with a `<failure>` element, and those with an `<error>` element.
  abbrev pub failing : List (JunitTestCase Float) → ℕ
  failing [] = 0
  failing (c ∷ cs) = holds_one c.failure + failing cs

  abbrev pub erring : List (JunitTestCase Float) → ℕ
  erring [] = 0
  erring (c ∷ cs) = holds_one c.error + erring cs

  failing-append :
      (cs ds : List (JunitTestCase Float)) → failing (cs ++ ds) ≡ failing cs + failing ds
  failing-append [] ds = omega arith
  failing-append (c ∷ cs) ds = omega (arith, failing-append cs ds)

  erring-append : (cs ds : List (JunitTestCase Float)) → erring (cs ++ ds) ≡ erring cs + erring ds
  erring-append [] ds = omega arith
  erring-append (c ∷ cs) ds = omega (arith, erring-append cs ds)

-- 1 for the verdict UNSTABLE, and 0 for another.
abbrev pub unsettled : Verdict → ℕ
unsettled unstable = 1
unsettled v = 0

-- A verdict of the program is one of three.
data IsNamed : Verdict → Type 0 where
  passed : IsNamed pass
  unsettled_one : IsNamed unstable
  failed : IsNamed fail

if-IsNamed : (b : Bool) (v w : Verdict) → IsNamed v → IsNamed w → IsNamed (if b then v else w)
if-IsNamed true v w h k = h
if-IsNamed false v w h k = k

module _ (p : Platform) (seconds : ℤ → p.Float) where
  failing-failures :
      (fs : List ValidationFailure)
      → (failing (map (failure_case p seconds) fs) ≡ length fs)
        × (erring (map (failure_case p seconds) fs) ≡ 0)
  unfolding failure_case
  failing-failures [] = (refl, refl)
  failing-failures (f ∷ fs) = omega (arith, failing-failures fs)

  erring-warnings :
      (fs : List ValidationFailure)
      → (failing (map (warning_case p seconds) fs) ≡ 0)
        × (erring (map (warning_case p seconds) fs) ≡ length fs)
  unfolding warning_case
  erring-warnings [] = (refl, refl)
  erring-warnings (f ∷ fs) = omega (arith, erring-warnings fs)

  determine-IsNamed :
      (d : Report p.Float) (t : SuccessThresholds p.Float) → IsNamed (determine_verdict p d t)
  unfolding determine_verdict
  determine-IsNamed d t = if-IsNamed (ltb 0 (length d.critical_failures)) _ _ failed (
      if-IsNamed (p.float_lt d.success_rate t.min_success_rate) _ _ failed (
        if-IsNamed
          (ltb_ℤ (pos 0) t.max_failed_iterations
            && ltb_ℤ t.max_failed_iterations (pos d.failure_count))
          _ _ failed
          (if-IsNamed (t.require_all_validators_passing && ltb 0 d.failure_count) _ _ failed
            (if-IsNamed (ltb 0 (length d.warnings)) _ _ unsettled_one passed))))

  verdict_failure-exit :
      (v : Verdict) (d : Report p.Float)
      → IsNamed v
      → holds_one (verdict_failure p seconds v d) ≡ exit_code v
  unfolding verdict_failure exit_code
  verdict_failure-exit v d passed = refl
  verdict_failure-exit v d unsettled_one = refl
  verdict_failure-exit v d failed = refl

  verdict_error-unsettled :
      (v : Verdict) (d : Report p.Float) → holds_one (verdict_error p seconds v d) ≡ unsettled v
  unfolding verdict_error
  verdict_error-unsettled pass d = refl
  verdict_error-unsettled unstable d = refl
  verdict_error-unsettled fail d = refl
  verdict_error-unsettled (Verdict.other n) d = refl

  abbrev Counted : Report p.Float → Type 0
  Counted report =
      (failing (junit_suite p seconds report).test_cases
        ≡ exit_code report.verdict + (junit_suite p seconds report).failures)
      × (erring (junit_suite p seconds report).test_cases
          ≡ unsettled report.verdict + (junit_suite p seconds report).errors)
      × ((junit_suite p seconds report).failures ≡ length report.critical_failures)
      × ((junit_suite p seconds report).errors ≡ length report.warnings)

  suite-Counted : (d : Report p.Float) → IsNamed d.verdict → Counted d
  unfolding junit_suite verdict_case
  suite-Counted d h =
      let fs = map (failure_case p seconds) d.critical_failures in
      let ws = map (warning_case p seconds) d.warnings in
      let f = failing-failures d.critical_failures in
      let w = erring-warnings d.warnings in
      let v = verdict_failure-exit d.verdict d h in
      let u = verdict_error-unsettled d.verdict d in
      (
        omega (arith, f, w, v, failing-append fs ws),
        omega (arith, f, w, u, erring-append fs ws),
        refl,
        refl,
      )

  -- For a report of GetVerdict, the cases of the JUnit suite that fail are as many as its
  -- `failures` attribute says, and one more exactly when the exit code is 1; those with an error
  -- are as many as its `errors` attribute says, and one more exactly when the verdict is UNSTABLE.
  -- The attributes are the numbers of critical failures and of warnings.
  pub junit_suite-get_verdict :
      (o : MapOrder) (now : ℤ) (t : SuccessThresholds p.Float) (rp : Reporter)
      (report : Report p.Float)
      → get_verdict p o now rp t ≡ ok report
      → (failing (junit_suite p seconds report).test_cases
          ≡ exit_code report.verdict + (junit_suite p seconds report).failures)
        × (erring (junit_suite p seconds report).test_cases
            ≡ unsettled report.verdict + (junit_suite p seconds report).errors)
        × ((junit_suite p seconds report).failures ≡ length report.critical_failures)
        × ((junit_suite p seconds report).errors ≡ length report.warnings)
  unfolding conclude draft_of
  junit_suite-get_verdict o now t rp report e =
      let (r, rs, a, cs, ws, is, er, f) = get_verdict_form p o now t rp report e in
      rw f (suite-Counted _ (determine-IsNamed (draft_of p now t r rs a cs ws is) t))
