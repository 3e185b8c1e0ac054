-- ===== src/Reporter/Failures.antt =====
-- reporter.go: getValidatorSeverity and categorizeFailures.
pub mod Spec
pub mod Notes
pub mod Categorize
pub mod Partition
use chaoskit.Prelude.{
  ℕ, suc, ◌+◌, Bool, false, ◌||◌, Option, none, some, List, [], ◌∷◌, if◌then◌else◌,
}
use chaoskit.Prelude.Int.{ltb_ℤ}
use chaoskit.Text.{Str, str_eq}
use chaoskit.Errors.{Error, Result, ok, message, ◌>>=◌}
use chaoskit.Verdict.{Severity, critical, warning, info, severity_eq}
use chaoskit.Thresholds.{SuccessThresholds}
use chaoskit.Execution.{ExecutionResult}
use chaoskit.Report.{ValidationFailure}
use chaoskit.Reporter.Names.{Mapping, extract_validator_name, normalize_validator_name}
use chaoskit.Reporter.Orders.{MapOrder}
use chaoskit.Reporter.Sorting.{sort_by}

-- normalizedName == x || validatorName == x, for some x of the list
unfoldable pub is_listed : Str → Str → List Str → Bool
is_listed normalized name [] = false
is_listed normalized name (x ∷ xs) =
    (str_eq normalized x || str_eq name x) || is_listed normalized name xs

module _ {Float : Type 0} (t : SuccessThresholds Float) where
  unfoldable pub validator_severity : List Mapping → Str → Severity
  validator_severity order name =
      let normalized = normalize_validator_name order name in
      if is_listed normalized name t.critical_validators
      then critical
      else if is_listed normalized name t.warning_validators
      then warning
      else info

-- The branch `existing, ok := failures[name]`.
unfoldable pub repeat_failure : ExecutionResult → ValidationFailure → ValidationFailure
repeat_failure r f = record f {
  occurrences = f.occurrences + 1;
  last_seen = if ltb_ℤ f.last_seen r.timestamp then r.timestamp else f.last_seen;
  first_seen = if ltb_ℤ r.timestamp f.first_seen then r.timestamp else f.first_seen;
}

unfoldable pub first_failure : Str → Severity → Error → ExecutionResult → ValidationFailure
first_failure name s e r = record {
  validator_name = name;
  severity = s;
  message = message e;
  occurrences = 1;
  first_seen = r.timestamp;
  last_seen = r.timestamp;
}

-- The map `failures`, by its entries in the order of insertion.
unfoldable pub note :
    Str → Severity → Error → ExecutionResult → List ValidationFailure → List ValidationFailure
unfolding repeat_failure first_failure
note name s e r [] = first_failure name s e r ∷ []
note name s e r (f ∷ fs) =
    if str_eq f.validator_name name then repeat_failure r f ∷ fs else f ∷ note name s e r fs

module _ {Float : Type 0} (t : SuccessThresholds Float) (order : ℕ → List Mapping) where
  -- One failed result, the n-th of the pass.
  unfoldable pub note_result :
      Severity
      → ℕ
      → Error
      → ExecutionResult
      → List ValidationFailure
      → Result (List ValidationFailure)
  note_result s n e r fs = do
    name ← extract_validator_name e
    let found = validator_severity t (order n) name
    ok (if severity_eq found s then note name found e r fs else fs)

  -- The body of the loop: a result without an error is passed over.
  unfoldable pub take_result :
      Severity
      → ℕ
      → Option Error
      → ExecutionResult
      → List ValidationFailure
      → Result (ℕ × List ValidationFailure)
  unfolding note_result
  take_result s n none r fs = ok (n, fs)
  take_result s n (some e) r fs = note_result s n e r fs >>= λ gs. ok (suc n, gs)

  -- The loop over the results; `n` counts the failed ones.
  unfoldable pub collect :
      Severity → ℕ → List ValidationFailure → List ExecutionResult → Result (List ValidationFailure)
  collect s n fs [] = ok fs
  collect s n fs (r ∷ rs) = take_result s n r.error r fs >>= λ p. collect s p.0 p.1 rs

module _ {Float : Type 0} (o : MapOrder) (t : SuccessThresholds Float) where
  unfoldable pub categorize_failures :
      Severity → List ExecutionResult → Result (List ValidationFailure)
  unfolding collect take_result
  categorize_failures s rs = collect t (o.mapping_order s) s 0 [] rs >>= λ fs.
      ok (sort_by (λ f. f.occurrences) (o.failure_order fs))
