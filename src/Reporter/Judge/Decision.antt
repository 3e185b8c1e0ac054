-- ===== src/Reporter/Judge/Decision.antt =====
-- The verdict as a function of the results and the thresholds (reporter.go).
use chaoskit.Prelude.{
  ℕ, ◌+◌, ◌≤◌, ◌≡◌, ◌⊎◌, inl, inr, refl, sym, subst, Bool, true, false, ◌&&◌, ◌||◌, List, [], ◌∷◌,
  arith, length, All, ltb, if◌then◌else◌,
}
use chaoskit.Prelude.Int.{ℤ, pos, ltb_ℤ, quot}
use chaoskit.Text.{Str}
use chaoskit.Errors.{ok}
use chaoskit.Platform.{Platform}
use chaoskit.Verdict.{Verdict, pass, unstable, fail, Severity, critical, warning}
use chaoskit.Thresholds.{SuccessThresholds, validate}
use chaoskit.Execution.{ExecutionResult}
use chaoskit.Report.{Report, ValidationFailure, FailureAnalysis}
use chaoskit.Reporter.Names.Keys.{IsUnambiguous}
use chaoskit.Reporter.Orders.{MapOrder, MapOrderLaws}
use chaoskit.Reporter.Failures.{categorize_failures}
use chaoskit.Reporter.Failures.Spec.{AllSpeak, times, occurrences}
use chaoskit.Reporter.Failures.Categorize.{
  of_severity, occurrences-categorize, categorize-IsOrdered,
}
use chaoskit.Reporter.Judge.{
  get_verdict, successes, failures, total_duration, determine_verdict, draft_report, draft_of,
  conclude,
}
use chaoskit.Reporter.Judge.Counts.{successes-failures}
use chaoskit.Reporter.Judge.Returns.{AllReadable, draft_returns}

abbrev pub any_name : Str → Bool
any_name v = true

module _ (p : Platform) (t : SuccessThresholds p.Float) where
  open p use {Float, float_lt, float_div, float_of}

  -- How many results fail with an error that names a validator of the severity.
  abbrev pub named_failures : Severity → List ExecutionResult → ℕ
  named_failures s = times (of_severity t s any_name)

  abbrev pub rate_of : List ExecutionResult → Float
  rate_of rs = float_div (float_of (successes rs)) (float_of (length rs))

  -- Some threshold is broken.
  abbrev pub is_blocked : List ExecutionResult → Bool
  is_blocked rs =
      ltb 0 (named_failures critical rs)
      || float_lt (rate_of rs) t.min_success_rate
      || (ltb_ℤ (pos 0) t.max_failed_iterations
          && ltb_ℤ t.max_failed_iterations (pos (failures rs)))
      || (t.require_all_validators_passing && ltb 0 (failures rs))

  -- The average duration is over its maximum, where one is set.
  abbrev pub is_slow : List ExecutionResult → Bool
  is_slow rs =
      ltb_ℤ (pos 0) t.max_avg_duration
      && ltb_ℤ t.max_avg_duration (quot (total_duration (pos 0) rs) (length rs))

  -- The verdict on results whose average duration is, or is not, over its maximum.
  abbrev pub verdict_for : Bool → List ExecutionResult → Verdict
  verdict_for slow rs =
      if is_blocked rs
      then fail
      else if ltb 0 (named_failures warning rs) || slow
      then unstable
      else pass

  -- The verdict that the results deserve by the documentation of the thresholds, where exceeding
  -- MaxAvgDuration produces a warning.
  abbrev pub deserved : List ExecutionResult → Verdict
  deserved rs = verdict_for (is_slow rs) rs

  -- The verdict is that on results which are not slow. It is the one they deserve, unless the
  -- average duration is over its maximum and nothing else is amiss: PASS stands for UNSTABLE then.
  abbrev pub IsJudged : List ExecutionResult → Verdict → Type 0
  IsJudged rs v =
      (v ≡ verdict_for false rs)
      × ((v ≡ deserved rs) ⊎ ((is_slow rs ≡ true) × (deserved rs ≡ unstable) × (v ≡ pass)))

choose : Bool → Bool → Bool → Verdict
choose blocked warned slow = if blocked then fail else if warned || slow then unstable else pass

overlooked :
    (blocked warned slow : Bool)
    → (choose blocked warned false ≡ choose blocked warned slow)
      ⊎ ((slow ≡ true)
          × (choose blocked warned slow ≡ unstable)
          × (choose blocked warned false ≡ pass))
unfolding choose
overlooked true warned slow = inl refl
overlooked false true slow = inl refl
overlooked false false true = inr (refl, refl, refl)
overlooked false false false = inl refl

-- A list of failures is empty exactly when it accounts for no occurrence.
any-occurrences :
    (fs : List ValidationFailure)
    → All (λ f. 1 ≤ f.occurrences) fs
    → ltb 0 (length fs) ≡ ltb 0 (occurrences any_name fs)
any-occurrences [] h = refl
any-occurrences (f ∷ fs) h = ground arith

module _ {Float : Type 0} (o : MapOrder) (laws : MapOrderLaws o) (t : SuccessThresholds Float) where
  pub any-categorize :
      (s : Severity) (rs : List ExecutionResult) (fs : List ValidationFailure)
      → AllSpeak IsUnambiguous rs
      → categorize_failures o t s rs ≡ ok fs
      → ltb 0 (length fs) ≡ ltb 0 (times (of_severity t s any_name) rs)
  any-categorize s rs fs c h =
      rw (← occurrences-categorize o laws t any_name s rs fs c h)
        (any-occurrences fs (categorize-IsOrdered o laws t s rs fs c h).positive)

module _ (p : Platform) (o : MapOrder) (now : ℤ) (t : SuccessThresholds p.Float) where
  pub get_verdict_ok :
      (r : ExecutionResult) (rs : List ExecutionResult) (d : Report p.Float)
      → validate p t ≡ ok tt
      → draft_report p o now t r rs ≡ ok d
      → get_verdict p o now (record { results = r ∷ rs }) t ≡ ok (conclude p d)
  unfolding get_verdict
  get_verdict_ok r rs d v e = rw (get_verdict, v, e)

module _ (p : Platform) (o : MapOrder) (laws : MapOrderLaws o) (now : ℤ)
    (t : SuccessThresholds p.Float) where
  pub determine-deserved :
      (r : ExecutionResult) (rs : List ExecutionResult) (a : FailureAnalysis)
      (cs ws is : List ValidationFailure)
      → AllSpeak IsUnambiguous (r ∷ rs)
      → categorize_failures o t critical (r ∷ rs) ≡ ok cs
      → categorize_failures o t warning (r ∷ rs) ≡ ok ws
      → determine_verdict p (draft_of p now t r rs a cs ws is) t ≡ verdict_for p t false (r ∷ rs)
  unfolding determine_verdict draft_of
  determine-deserved r rs a cs ws is c pc pw =
      rw
        (
          any-categorize o laws t critical (r ∷ rs) cs c pc,
          any-categorize o laws t warning (r ∷ rs) ws c pw,
        )
        (ground arith)

  IsJudged-verdict :
      (rs : List ExecutionResult) (v : Verdict) → v ≡ verdict_for p t false rs → IsJudged p t rs v
  unfolding choose
  IsJudged-verdict rs v e = (
    e,
    subst
        (λ x.
          (x ≡ deserved p t rs)
          ⊎ ((is_slow p t rs ≡ true) × (deserved p t rs ≡ unstable) × (x ≡ pass)))
        (sym e)
        (overlooked (is_blocked p t rs) (ltb 0 (named_failures p t warning rs)) (is_slow p t rs)),
  )

  -- For valid thresholds and at least one result, whose errors can be read and name validators
  -- unambiguously, GetVerdict returns a report, whose counts add up to the number of results. Its
  -- verdict is FAIL when an error names a critical validator, the success rate is too low, too many
  -- iterations failed or all had to pass, otherwise UNSTABLE when an error names a warning
  -- validator, otherwise PASS. That is the verdict which the results deserve, but for an average
  -- duration over its maximum, which is documented to produce a warning and is not looked at: where
  -- nothing else is amiss, the verdict is PASS and the results deserve UNSTABLE.
  pub get_verdict-deserved :
      (r : ExecutionResult) (rs : List ExecutionResult)
      → validate p t ≡ ok tt
      → AllReadable (r ∷ rs)
      → AllSpeak IsUnambiguous (r ∷ rs)
      → (report : Report p.Float) × (get_verdict p o now (record { results = r ∷ rs }) t
          ≡ ok report)
        × IsJudged p t (r ∷ rs) report.verdict
        × (report.success_count + report.failure_count ≡ length (r ∷ rs))
  unfolding conclude draft_of
  get_verdict-deserved r rs v h c =
      let (a, cs, ws, is, pc, pw, d) = draft_returns p o now t r rs h in
      (
        conclude p (draft_of p now t r rs a cs ws is),
        get_verdict_ok p o now t r rs _ v d,
        IsJudged-verdict (r ∷ rs) _ (determine-deserved r rs a cs ws is c pc pw),
        successes-failures (r ∷ rs),
      )
