-- ===== src/Validators/Counters.antt =====
-- validators/error.go and validators/panic_recovery.go: counters with a limit. The warnings at 80%
-- of the limit only write to the log.
use chaoskit.Prelude.{
  ℕ, zero, suc, ◌<◌, ◌^◌, ◌≡◌, refl, ◌↔◌, ◌++◌, Option, none, some, arith, ap, ◌∙◌, if◌then◌else◌,
}
use chaoskit.Prelude.Int.{ℤ, pos, add64, ltb_ℤ, ◌≤ℤ◌, add64_small}
use chaoskit.Text.{Str, codes, show_int}
use chaoskit.Errors.{Error, plain}
use chaoskit.Verdict.{Severity, warning}

pub record ErrorValidator : Type 0 where
  pub name : Str
  pub error_count : ℤ
  pub max_errors : ℤ

unfoldable pub max_errors : ℤ → ErrorValidator
max_errors max = record {
  name = codes "max_errors_" ++ show_int max;
  error_count = pos 0;
  max_errors = max;
}

unfoldable pub error_severity : ErrorValidator → Severity
error_severity e = warning

unfoldable pub validate_errors : ErrorValidator → Option Error
validate_errors e =
    if ltb_ℤ e.max_errors e.error_count
    then some (
        plain (
          codes "too many errors: "
          ++ show_int e.error_count
          ++ codes " (limit: "
          ++ show_int e.max_errors
          ++ codes ")"))
    else none

unfoldable pub record_error : ErrorValidator → ErrorValidator
record_error e = record e { error_count = add64 e.error_count (pos 1) }

pub record PanicRecoveryValidator : Type 0 where
  pub name : Str
  pub panic_count : ℤ
  pub max_panics : ℤ

unfoldable pub no_panics : ℤ → PanicRecoveryValidator
no_panics max = record {
  name = codes "no_panics_" ++ show_int max;
  panic_count = pos 0;
  max_panics = max;
}

unfoldable pub panic_severity : PanicRecoveryValidator → Severity
panic_severity p = warning

unfoldable pub validate_panics : PanicRecoveryValidator → Option Error
validate_panics p =
    if ltb_ℤ p.max_panics p.panic_count
    then some (
        plain (
          codes "too many panics: "
          ++ show_int p.panic_count
          ++ codes " (limit: "
          ++ show_int p.max_panics
          ++ codes ")"))
    else none

unfoldable pub record_panic : PanicRecoveryValidator → PanicRecoveryValidator
record_panic p = record p { panic_count = add64 p.panic_count (pos 1) }

-- The state after a number of recorded events.
abbrev pub errors_recorded : ℕ → ErrorValidator → ErrorValidator
errors_recorded zero e = e
errors_recorded (suc n) e = record_error (errors_recorded n e)

abbrev pub panics_recorded : ℕ → PanicRecoveryValidator → PanicRecoveryValidator
panics_recorded zero p = p
panics_recorded (suc n) p = record_panic (panics_recorded n p)

counted_errors :
    (n : ℕ) (max : ℤ) → n < 2 ^ 63 → (errors_recorded n (max_errors max)).error_count ≡ pos n
unfolding record_error max_errors
counted_errors zero max b = refl
counted_errors (suc n) max b =
    rw (counted_errors n max (omega arith)) (add64_small n 1 (omega arith) ∙ ap pos (omega arith))

counted_panics :
    (n : ℕ) (max : ℤ) → n < 2 ^ 63 → (panics_recorded n (no_panics max)).panic_count ≡ pos n
unfolding record_panic no_panics
counted_panics zero max b = refl
counted_panics (suc n) max b =
    rw (counted_panics n max (omega arith)) (add64_small n 1 (omega arith) ∙ ap pos (omega arith))

errors_limit : (n : ℕ) (max : ℤ) → (errors_recorded n (max_errors max)).max_errors ≡ max
unfolding record_error max_errors
errors_limit zero max = refl
errors_limit (suc n) max = errors_limit n max

panics_limit : (n : ℕ) (max : ℤ) → (panics_recorded n (no_panics max)).max_panics ≡ max
unfolding record_panic no_panics
panics_limit zero max = refl
panics_limit (suc n) max = panics_limit n max

limit_error : (n max : ℤ) (e : Error) → ((if ltb_ℤ max n then some e else none) ≡ none) ↔ (n ≤ℤ max)
limit_error n max e = ground arith

-- After fewer than 2^63 recorded errors the error validator passes exactly when they do not exceed
-- its limit, and so does the panic validator for panics.
pub recorded-passes :
    (n : ℕ) (max : ℤ)
    → n < 2 ^ 63
    → ((validate_errors (errors_recorded n (max_errors max)) ≡ none) ↔ (pos n ≤ℤ max))
      × ((validate_panics (panics_recorded n (no_panics max)) ≡ none) ↔ (pos n ≤ℤ max))
unfolding validate_errors validate_panics
recorded-passes n max b =
    rw (counted_errors n max b, errors_limit n max, counted_panics n max b, panics_limit n max)
      (limit_error (pos n) max _, limit_error (pos n) max _)
