-- ===== src/Injectors/Monkey/Calls.antt =====
-- What the functions do that replace a patched function (the closures in Inject of
-- injectors/monkey_patch_delay.go, monkey_patch_error.go and monkey_patch_panic.go). `original` is
-- the call of the original with the arguments at hand, and its results are of the type `R`.
use chaoskit.Prelude.{ℕ, Bool, true, false, Option, none, some, [], if◌then◌else◌}
use chaoskit.Prelude.Int.{ℤ, pos, add64}
use chaoskit.Text.{Str, codes, str_eq}
use chaoskit.Errors.{Error}
use chaoskit.Platform.{Platform}
use chaoskit.Exec.{Exec, panics, pure, ◌>>=◌, ◌>>◌}
use chaoskit.Host.{Host}
use chaoskit.Injectors.Delay.{between}
use chaoskit.Injectors.Monkey.{PatchTarget, DelayPatchTarget, ErrorPatchTarget, Counts, put}

-- *counts[a]++, which is run for a variable that has a counter.
unfoldable pub count_call : ℕ → Counts → Counts
count_call a counts = elim (counts a) [ none ↦ counts | some n ↦ put a (add64 n (pos 1)) counts ]

module _ (p : Platform) where
  open p use {Float, float_lt}

  unfoldable pub get_panic_message : PatchTarget Float → Str
  get_panic_message t =
      if str_eq t.panic_message [] then codes "chaos: monkey patch panic" else t.panic_message

  module _ {W R : Type 0} (h : Host W) (intn : ℕ → ℕ → Exec W ℕ) (draw : ℕ → Exec W Float)
      (original : Exec W R) where
    unfoldable pub panicking_call : PatchTarget Float → ℕ → Exec W R
    unfolding get_panic_message
    panicking_call t rng = draw rng >>= λ x.
        if float_lt x t.probability then (λ w. (panics (get_panic_message t), w)) else original

    delayed : Bool → ℤ → Exec W R
    delayed true delay = h.sleep delay >> original
    delayed false delay = original >>= λ r. h.sleep delay >> pure r

    -- `a` is the variable that is patched.
    unfoldable pub delayed_call : DelayPatchTarget Float → ℕ → ℕ → Counts → Exec W (R × Counts)
    unfolding delayed count_call between
    delayed_call t a rng counts = draw rng >>= λ x.
        if float_lt x t.probability
        then (between p h intn (some rng) t.min_delay t.max_delay >>= λ delay.
            delayed t.delay_before delay >>= λ r. pure (r, count_call a counts))
        else (original >>= λ r. pure (r, counts))

    -- `answer` builds zero results with the error as the last, and `call` calls an ErrorFunc. The
    -- error is printed for the log, so that an ErrorFunc that answers nil makes the call panic
    -- (its counter, which is then counted already, is not handed back).
    module _ (answer : Error → R) (call : ℕ → Exec W (Option Error)) where
      given : Option ℕ → Option Error → Exec W (Option Error)
      given (some f) e = call f
      given none e = pure e

      answered_with : Option Error → Exec W R
      answered_with (some e) = pure (answer e)
      answered_with none = λ w.
          (panics (codes "runtime error: invalid memory address or nil pointer dereference"), w)

      unfoldable pub failing_call : ErrorPatchTarget Float → ℕ → ℕ → Counts → Exec W (R × Counts)
      unfolding given answered_with count_call
      failing_call t a rng counts = draw rng >>= λ x.
          if float_lt x t.probability
          then (given t.error_func t.error >>= answered_with >>= λ r. pure (r, count_call a counts))
          else (original >>= λ r. pure (r, counts))
