-- ===== src/Tests/Checks.antt =====
-- The validators of the package on concrete readings.
use mathlib.Core.List.Perm
use chaoskit.Prelude.{ℕ, ◌≡◌, refl, zero, suc, ◌↔◌, none, some, [], ◌∷◌, arith, All}
use chaoskit.Prelude.Int.{pos, ◌≤ℤ◌}
use chaoskit.Errors.{Error}
use chaoskit.Verdict.{Severity, critical, warning}
use chaoskit.Thresholds
use chaoskit.Validators.Counters.{
  max_errors, no_panics, validate_errors, validate_panics, errors_recorded, panics_recorded,
  recorded-passes,
}
use chaoskit.Validators.Recursion.{
  RecursionDepthValidator, validate_depths, record_recursion, IsWithin,
  validate_depths-record_recursion,
}
use chaoskit.Validators.Timing.{SlowIterationValidator, validate_progress, validate_progress-stuck}
use chaoskit.Validators.Composite.{
  CompositeValidator, validate_composite, Checked, validate_composite-Checked,
}
use chaoskit.Executor.Once.{run_validators}
use chaoskit.Tests.{thousandths, bench, background}

recorded-passes_example :
    ((validate_errors (errors_recorded 3 (max_errors (pos 2))) ≡ none) ↔ (pos 3 ≤ℤ pos 2))
    × ((validate_panics (panics_recorded 3 (no_panics (pos 2))) ≡ none) ↔ (pos 3 ≤ℤ pos 2))
recorded-passes_example = recorded-passes 3 (pos 2) (omega arith)

abbrev shallow : RecursionDepthValidator
shallow = record { name = []; max_depth = pos 5; depths = pos 4 ∷ [] }

validate_depths-record_recursion_example :
    ((validate_depths shallow ≡ none) ↔ All (IsWithin (pos 5)) (pos 4 ∷ []))
    × ((validate_depths (record_recursion shallow (pos 9)) ≡ none)
        ↔ ((validate_depths shallow ≡ none) × IsWithin (pos 5) (pos 9)))
validate_depths-record_recursion_example = validate_depths-record_recursion shallow (pos 9)

abbrev slow : SlowIterationValidator
slow = record { name = []; timeout = pos 5; last_check_time = pos 10 }

too_slow : (e : Error) × ((validate_progress thousandths slow (pos 20) (pos 21)).0 ≡ some e)
unfolding validate_progress
too_slow = (_, refl)

validate_progress-stuck_example :
    (f : Error) × ((validate_progress thousandths
        (validate_progress thousandths slow (pos 20) (pos 21)).1
        (pos 22)
        (pos 23)).0
      ≡ some f)
validate_progress-stuck_example =
    validate_progress-stuck thousandths slow (pos 20) (pos 21) (pos 22) (pos 23) too_slow.0
      too_slow.1 (omega arith)

abbrev both : CompositeValidator
both = record { name = []; validators = 0 ∷ 1 ∷ [] }

abbrev severities : ℕ → Severity
severities zero = warning
severities (suc n) = critical

-- The second of the two fails.
validate_composite-Checked_example :
    Checked bench background 0 (0 ∷ 1 ∷ []) 0 (validate_composite bench both background 0 0)
    × Checked bench background 0 (0 ∷ 1 ∷ []) 0 (run_validators bench background 0 (0 ∷ 1 ∷ []) 0)
validate_composite-Checked_example = validate_composite-Checked bench background 0 both 0
