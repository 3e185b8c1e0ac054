-- ===== src/Injectors/Monkey/Checked.antt =====
-- What the injectors of patches ask of a target (the first part of the loop in Inject of
-- injectors/monkey_patch_delay.go, monkey_patch_error.go and monkey_patch_panic.go).
use chaoskit.Prelude.{ℕ, ◌++◌, true, false, Option, none, some, if◌then◌else◌}
use chaoskit.Prelude.Int.{pos, ltb_ℤ}
use chaoskit.Text.{codes}
use chaoskit.Errors.{Error, plain, wrapped}
use chaoskit.Platform.{Platform}
use chaoskit.Injectors.Patches.{validate_probability}
use chaoskit.Injectors.Monkey.{
  PatchTarget, DelayPatchTarget, ErrorPatchTarget, LastOut, no_out, error_out, other_out, Checks,
  invalid,
}

module _ (p : Platform) where
  open p use {Float, show_duration}

  unfoldable pub probable : ℕ → Float → Option Error
  unfolding validate_probability
  probable i x = elim (validate_probability p x) [
    | none ↦ none
    | some e ↦ some (wrapped (invalid i) e)
  ]

  unfoldable pub panic_checks : Checks (PatchTarget Float)
  unfolding probable
  panic_checks = record {
    func = λ t. t.func;
    parameters = λ i t. probable i t.probability;
    shape = λ i t. none;
    counts_calls = false;
  }

  delay_parameters : ℕ → DelayPatchTarget Float → Option Error
  unfolding probable
  delay_parameters i t = elim (probable i t.probability) [
    | some e ↦ some e
    | none ↦
        if ltb_ℤ t.min_delay (pos 0)
        then some (
            plain (
              invalid i
              ++ codes "min delay must be non-negative, got "
              ++ show_duration t.min_delay))
        else if ltb_ℤ t.max_delay t.min_delay
        then some (
            plain (
              invalid i
              ++ codes "max delay ("
              ++ show_duration t.max_delay
              ++ codes ") must be >= min delay ("
              ++ show_duration t.min_delay
              ++ codes ")"))
        else none
  ]

  unfoldable pub delay_checks : Checks (DelayPatchTarget Float)
  unfolding delay_parameters
  delay_checks = record {
    func = λ t. t.func;
    parameters = delay_parameters;
    shape = λ i t. none;
    counts_calls = true;
  }

  error_given : ℕ → Option Error → Option ℕ → Option Error
  error_given i none none =
      some (plain (invalid i ++ codes "either Error or ErrorFunc must be provided"))
  error_given i (some e) (some f) =
      some (plain (invalid i ++ codes "Error and ErrorFunc are mutually exclusive"))
  error_given i (some e) none = none
  error_given i none (some f) = none

  error_parameters : ℕ → ErrorPatchTarget Float → Option Error
  unfolding probable error_given
  error_parameters i t = elim (probable i t.probability) [
    | some e ↦ some e
    | none ↦ error_given i t.error t.error_func
  ]

  returns_error : ℕ → LastOut → Option Error
  returns_error i no_out =
      some (plain (invalid i ++ codes "function must return error as last return value"))
  returns_error i (other_out type) =
      some (plain (invalid i ++ codes "function last return value must be error, got " ++ type))
  returns_error i error_out = none

  unfoldable pub error_checks : Checks (ErrorPatchTarget Float)
  unfolding error_parameters returns_error
  error_checks = record {
    func = λ t. t.func;
    parameters = error_parameters;
    shape = λ i t. returns_error i t.last_out;
    counts_calls = true;
  }
