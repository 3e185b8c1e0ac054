-- ===== src/Reporter/Names/RoundTrip.antt =====
-- The names that the executor writes into its errors, and the reporter reads back (executor.go,
-- reporter.go).
use chaoskit.Prelude.{
  ℕ, ◌+◌, ◌≡◌, refl, Option, none, some, ◌∷◌, ◌++◌, arith, All, append_assoc, length, length-append,
  take-append,
}
use chaoskit.Text.{Str, codes, slice, index, has_prefix}
use chaoskit.Text.Search.{IsPlain, index_validator, trim_space_plain}
use chaoskit.Errors.{Error, ok, panic, message}
use chaoskit.Execution.{step_failed, validator_failed}
use chaoskit.Thresholds.{type_unknown}
use chaoskit.Reporter.Names.{extract_validator_name, name_before}

-- What stands behind the name in a validator's message.
abbrev tail_of : Error → Str
tail_of e = 32 ∷ message e

message-validator_failed :
    (v : Str) (e : Error)
    → message (validator_failed v e) ≡ codes "validator " ++ (v ++ (codes " failed:" ++ tail_of e))
unfolding message validator_failed
message-validator_failed v e = simp append_assoc

slice_name : (v s : Str) → slice (codes "validator " ++ (v ++ s)) 10 (10 + length v) ≡ some v
unfolding slice
slice_name v s = ground (arith, length-append v s, take-append v s)

name_before-mark :
    (v s : Str)
    → All IsPlain v
    → name_before (codes "validator " ++ (v ++ s)) (some (10 + length v)) ≡ ok v
unfolding name_before has_prefix
name_before-mark v s h = ground (arith, slice_name v s, trim_space_plain v h)

-- A plain name that the executor put into a validator's error is read back from it unchanged.
pub extract-validator_failed :
    (v : Str) (e : Error) → All IsPlain v → extract_validator_name (validator_failed v e) ≡ ok v
unfolding extract_validator_name
extract-validator_failed v e h =
    rw (message-validator_failed v e, index_validator v (tail_of e) h)
      (name_before-mark v (codes " failed:" ++ tail_of e) h)

name_before_step : (s : Str) (o : Option ℕ) → name_before (codes "step " ++ s) o ≡ ok type_unknown
unfolding name_before has_prefix
name_before_step s none = refl
name_before_step s (some idx) = ground arith

message-step_failed :
    (n : Str) (e : Error)
    → message (step_failed n e) ≡ codes "step " ++ (n ++ (codes " failed: " ++ message e))
unfolding message step_failed
message-step_failed n e = simp append_assoc

-- The error of a failed step, whatever the step's name, is read as the name "unknown".
pub extract-step_failed :
    (n : Str) (e : Error) → extract_validator_name (step_failed n e) ≡ ok type_unknown
unfolding extract_validator_name
extract-step_failed n e = rw (message-step_failed n e) (
    let s = n ++ (codes " failed: " ++ message e) in
    name_before_step s (index (codes "step " ++ s) (codes " failed:")))

out_of_bounds :
    (s : Str)
    → name_before
        (codes "validator failed:" ++ s)
        (index (codes "validator failed:" ++ s) (codes " failed:"))
      ≡ panic (codes "slice bounds out of range")
unfolding name_before index has_prefix slice
out_of_bounds s = refl

-- An error whose message begins "validator failed:" makes the reader slice beyond its bounds.
pub extract_out_of_bounds :
    (s : Str) (e : Error)
    → message e ≡ codes "validator failed:" ++ s
    → extract_validator_name e ≡ panic (codes "slice bounds out of range")
unfolding extract_validator_name
extract_out_of_bounds s e h = rw h (out_of_bounds s)
