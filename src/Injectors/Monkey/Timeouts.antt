-- ===== src/Injectors/Monkey/Timeouts.antt =====
-- injectors/monkey_patch_timeout.go: the injector that puts a timeout on the context of patched
-- functions. A type is a number, which `type_name` prints; `is_context` and `is_error` tell which
-- types implement the interfaces.
use chaoskit.Prelude.{ℕ, ◌++◌, Bool, true, false, Option, none, some, List, [], ◌∷◌, if◌then◌else◌}
use chaoskit.Prelude.Int.{ℤ, pos, ltb_ℤ}
use chaoskit.Text.{Str, codes}
use chaoskit.Errors.{Error, plain, wrapped, canceled, deadline_exceeded}
use chaoskit.Platform.{Platform}
use chaoskit.Exec.{Exec, returns, panics, pure, defer, ◌>>=◌}
use chaoskit.Host.{Host}
use chaoskit.Injectors.Patches.{Target}
use chaoskit.Injectors.Monkey.{Patching, Checks, Counts, new_patching, invalid}
use chaoskit.Injectors.Monkey.Checked.{probable}
use chaoskit.Injectors.Monkey.Calls.{count_call}

-- `ins` and `outs` are the types of the parameters and results of the target's function.
pub record TimeoutPatchTarget (Float : Type 0) : Type 0 where
  pub func : Target
  pub ins : List ℕ
  pub outs : List ℕ
  pub timeout : ℤ
  pub probability : Float
  pub func_name : Str
  pub return_error : Option Error

unfoldable pub monkey_patch_timeout :
    {Float : Type 0} → List (TimeoutPatchTarget Float) → Patching (TimeoutPatchTarget Float)
unfolding new_patching
monkey_patch_timeout targets = new_patching (codes "timeout") targets

given_error : Option Error → Error
given_error none = deadline_exceeded
given_error (some e) = e

-- timeoutCtx.Err() == context.DeadlineExceeded
timed_out : Option Error → Bool
timed_out (some deadline_exceeded) = true
timed_out (some canceled) = false
timed_out (some (plain s)) = false
timed_out (some (wrapped s e)) = false
timed_out none = false

module _ (type_name : ℕ → Str) (is_context is_error : ℕ → Bool) where
  takes_context : ℕ → List ℕ → Option Error
  takes_context i [] =
      some (plain (invalid i ++ codes "function must accept context.Context as first parameter"))
  takes_context i (type ∷ types) =
      if is_context type
      then none
      else some (
          plain (
            invalid i
            ++ codes "function first parameter must be context.Context, got "
            ++ type_name type))

  -- The first result whose type is an error is replaced.
  with_error : {V : Type 0} → V → List ℕ → List V → List V
  with_error e (type ∷ types) (v ∷ vs) =
      let rest = with_error e types vs in if is_error type then e ∷ vs else v ∷ rest
  with_error e [] vs = vs
  with_error e (type ∷ types) [] = []

  -- Zero values, and the error as the last; a function without results has no place for it.
  zeros_with : {V : Type 0} → (ℕ → V) → V → List ℕ → Option (List V)
  zeros_with zero_of e [] = none
  zeros_with zero_of e (type ∷ []) = some (e ∷ [])
  zeros_with zero_of e (type ∷ type' ∷ types) = elim (zeros_with zero_of e (type' ∷ types)) [
    | none ↦ none
    | some vs ↦ some (zero_of type ∷ vs)
  ]

  module _ (p : Platform) where
    open p use {Float, float_lt, show_duration}

    timeout_parameters : ℕ → TimeoutPatchTarget Float → Option Error
    unfolding probable
    timeout_parameters i t = elim (probable p i t.probability) [
      | some e ↦ some e
      | none ↦
          if ltb_ℤ (pos 0) t.timeout
          then none
          else some (
              plain
                (invalid i ++ codes "timeout must be positive, got " ++ show_duration t.timeout))
    ]

    unfoldable pub timeout_checks : Checks (TimeoutPatchTarget Float)
    unfolding timeout_parameters takes_context
    timeout_checks = record {
      func = λ t. t.func;
      parameters = timeout_parameters;
      shape = λ i t. takes_context i t.ins;
      counts_calls = true;
    }

    module _ {W V : Type 0} (h : Host W) (draw : ℕ → Exec W Float) (original : ℕ → Exec W (List V))
        (zero_of : ℕ → V) (error_value : Error → V) where
      -- The original has ended first: its results, and whether the time was up by then.
      completed : TimeoutPatchTarget Float → ℕ → Counts → List V → Option Error → List V × Counts
      unfolding timed_out with_error given_error count_call
      completed t a counts results e =
          if timed_out e
          then (
            with_error (error_value (given_error t.return_error)) t.outs results,
            count_call a counts,
          )
          else (results, counts)

      -- The time is up first, which is counted; `results[originalNumOut-1]` is out of range for a
      -- function without results.
      overdue : TimeoutPatchTarget Float → ℕ → Counts → Exec W (List V × Counts)
      unfolding zeros_with given_error count_call
      overdue t a counts =
          elim (zeros_with zero_of (error_value (given_error t.return_error)) t.outs) [
            | none ↦ λ w. (panics (codes "runtime error: index out of range [-1]"), w)
            | some vs ↦ pure (vs, count_call a counts)
          ]

      -- The function that replaces the variable `a`. `finished` tells which channel the select finds
      -- ready, the results or the end of the time, and `so_far` is what the original has done to the
      -- world in the second case; what it does later belongs to the calls that follow. The original
      -- runs in a goroutine of its own without a recover, so that a panic of it ends the program.
      -- A call that panics does not hand back its counter.
      unfoldable pub timed_call :
          Bool → (W → W) → TimeoutPatchTarget Float → ℕ → ℕ → ℕ → Counts → Exec W (List V × Counts)
      unfolding completed overdue
      timed_call finished so_far t a rng ctx counts = draw rng >>= λ x.
          if float_lt x t.probability
          then (h.with_timeout ctx t.timeout >>= λ timed. defer (h.cancel timed) (
              if finished
              then (original timed >>= λ results.
                  λ w. (returns (completed t a counts results (h.ctx_err timed w)), w))
              else (λ w. overdue t a counts (so_far w))))
          else (original ctx >>= λ results. pure (results, counts))
