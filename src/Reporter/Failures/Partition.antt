-- ===== src/Reporter/Failures/Partition.antt =====
-- The three lists of failures of a report together (reporter.go).
use chaoskit.Prelude.{
  ℕ, suc, ◌+◌, ◌≡◌, refl, ◌⊎◌, inl, inr, Bool, true, Option-cases, ◌&&◌, Option, none, some, List,
  [], ◌∷◌, arith, All,
}
use chaoskit.Text.{Str}
use chaoskit.Errors.{Error, ok}
use chaoskit.Verdict.{Severity, critical, warning, info, severity_eq}
use chaoskit.Thresholds.{SuccessThresholds}
use chaoskit.Execution.{ExecutionResult}
use chaoskit.Report.{ValidationFailure}
use chaoskit.Reporter.Names.{Mapping, mappings}
use chaoskit.Reporter.Names.Keys.{IsUnambiguous}
use chaoskit.Reporter.Orders.{MapOrder, MapOrderLaws}
use chaoskit.Reporter.Failures.{validator_severity, categorize_failures}
use chaoskit.Reporter.Failures.Spec.{IsReadable, one_if, AllSpeak, blamed, times, occurrences}
use chaoskit.Reporter.Failures.Categorize.{of_severity, severity_of, occurrences-categorize}

abbrev pub anyone : Str → Bool
anyone v = true

-- How many results have an error.
abbrev pub errors_in : List ExecutionResult → ℕ
errors_in [] = 0
errors_in (r ∷ rs) = elim r.error [ none ↦ errors_in rs | some e ↦ suc (errors_in rs) ]

module _ {Float : Type 0} (t : SuccessThresholds Float) where
  three_severities :
      (order : List Mapping) (v : Str)
      → (validator_severity t order v ≡ critical)
        ⊎ (validator_severity t order v ≡ warning)
        ⊎ (validator_severity t order v ≡ info)
  unfolding validator_severity
  three_severities order v = ground arith

  -- One name counts under one severity.
  one_severity :
      (x : Severity)
      → (x ≡ critical) ⊎ (x ≡ warning) ⊎ (x ≡ info)
      → one_if (severity_eq x critical && true)
          + one_if (severity_eq x warning && true)
          + one_if (severity_eq x info && true)
        ≡ 1
  unfolding severity_eq
  one_severity x (inl e) = rw e refl
  one_severity x (inr (inl e)) = rw e refl
  one_severity x (inr (inr e)) = rw e refl

  abbrev three : Option Error → ℕ
  three o =
      blamed (of_severity t critical anyone) o
      + blamed (of_severity t warning anyone) o
      + blamed (of_severity t info anyone) o

  abbrev is_error : Option Error → ℕ
  is_error none = 0
  is_error (some e) = 1

  one_error : (o : Option Error) → IsReadable o → three o ≡ is_error o
  one_error none h = refl
  one_error (some e) (v, p) = rw p (one_severity (severity_of t v) (three_severities mappings v))

  count_errors :
      (r : ExecutionResult) (rs : List ExecutionResult)
      → errors_in (r ∷ rs) ≡ is_error r.error + errors_in rs
  count_errors r rs = elim (Option-cases r.error) [
    | inl e ↦ rw e (omega arith)
    | inr (a, e) ↦ rw e (omega arith)
  ]

  errors_total :
      (rs : List ExecutionResult)
      → All (λ r. IsReadable r.error) rs
      → times (of_severity t critical anyone) rs
          + times (of_severity t warning anyone) rs
          + times (of_severity t info anyone) rs
        ≡ errors_in rs
  errors_total [] h = refl
  errors_total (r ∷ rs) h =
      omega (arith, one_error r.error h.0, count_errors r rs, errors_total rs h.1)

module _ {Float : Type 0} (o : MapOrder) (laws : MapOrderLaws o) (t : SuccessThresholds Float) where
  -- For results whose errors can be read and name validators unambiguously, the lists of critical
  -- failures, warnings and info messages that categorizeFailures returns together account for every
  -- failed result exactly once.
  pub categorize_failures-errors_in :
      (rs : List ExecutionResult) (cs ws is : List ValidationFailure)
      → All (λ r. IsReadable r.error) rs
      → AllSpeak IsUnambiguous rs
      → categorize_failures o t critical rs ≡ ok cs
      → categorize_failures o t warning rs ≡ ok ws
      → categorize_failures o t info rs ≡ ok is
      → occurrences anyone cs + occurrences anyone ws + occurrences anyone is ≡ errors_in rs
  categorize_failures-errors_in rs cs ws is a b pc pw pi = omega (
    arith,
    occurrences-categorize o laws t anyone critical rs cs b pc,
    occurrences-categorize o laws t anyone warning rs ws b pw,
    occurrences-categorize o laws t anyone info rs is b pi,
    errors_total t rs a,
  )
