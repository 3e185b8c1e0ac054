-- ===== src/Injectors/Monkey/Corruption.antt =====
-- injectors/monkey_patch_value_corruption.go: the injector that corrupts the results of patched
-- functions. A type is a number, which `type_name` prints, and `assignable` is AssignableTo.
pub mod Signatures
use chaoskit.Prelude.{
  ℕ, suc, ◌==◌, ◌++◌, Bool, true, false, Option, none, some, List, [], ◌∷◌, length, if◌then◌else◌,
}
use chaoskit.Prelude.Int.{ℤ}
use chaoskit.Text.{Str, codes, show_nat}
use chaoskit.Errors.{Error, plain}
use chaoskit.Platform.{Platform}
use chaoskit.Exec.{Exec, pure, ◌>>=◌}
use chaoskit.Injectors.Patches.{Target}
use chaoskit.Injectors.Monkey.{Patching, Checks, Counts, new_patching, invalid}
use chaoskit.Injectors.Monkey.Checked.{probable}
use chaoskit.Injectors.Monkey.Calls.{count_call}

-- The value passed as CorruptFunc: nil, a value of another kind, or a function with the types of its
-- parameters and results.
pub data CorruptFunc : Type 0 where
  nil_corrupt : CorruptFunc
  no_function : Str → CorruptFunc
  corrupting : List ℕ → List ℕ → CorruptFunc

-- `outs` are the types of the results of the target's function.
pub record ValueCorruptionPatchTarget (Float : Type 0) : Type 0 where
  pub func : Target
  pub outs : List ℕ
  pub corrupt_func : CorruptFunc
  pub probability : Float
  pub func_name : Str

unfoldable pub monkey_patch_value_corruption :
    {Float : Type 0}
    → List (ValueCorruptionPatchTarget Float)
    → Patching (ValueCorruptionPatchTarget Float)
unfolding new_patching
monkey_patch_value_corruption targets = new_patching (codes "value_corruption") targets

module _ (type_name : ℕ → Str) (assignable : ℕ → ℕ → Bool) where
  refused : ℕ → Str → Option Error
  refused i text = some (plain (invalid i ++ text))

  parameter_error : ℕ → ℕ → ℕ → ℕ → Option Error
  unfolding refused
  parameter_error i j type out = refused i (
      codes "corrupt function parameter "
      ++ show_nat j
      ++ codes " type ("
      ++ type_name type
      ++ codes ") does not match target return type ("
      ++ type_name out
      ++ codes ")")

  result_error : ℕ → ℕ → ℕ → ℕ → Option Error
  unfolding refused
  result_error i j type out = refused i (
      codes "corrupt function return type "
      ++ show_nat j
      ++ codes " ("
      ++ type_name type
      ++ codes ") is not assignable to target return type ("
      ++ type_name out
      ++ codes ")")

  -- Either loop: the first of the types that is not assignable to that of the result at its place.
  -- The lists are as long as each other.
  first_unassignable : (ℕ → ℕ → ℕ → Option Error) → ℕ → List ℕ → List ℕ → Option Error
  first_unassignable fault j (type ∷ types) (out ∷ outs) =
      let rest = first_unassignable fault (suc j) types outs in
      if assignable type out then rest else fault j type out
  first_unassignable fault j [] outs = none
  first_unassignable fault j (type ∷ types) [] = none

  results_checked : ℕ → List ℕ → List ℕ → Option Error
  unfolding refused first_unassignable result_error
  results_checked i results outs =
      if length results == length outs
      then first_unassignable (result_error i) 0 results outs
      else refused i (
          codes "corrupt function must return "
          ++ show_nat (length outs)
          ++ codes " values, got "
          ++ show_nat (length results))

  parameters_checked : ℕ → List ℕ → List ℕ → List ℕ → Option Error
  unfolding refused first_unassignable parameter_error results_checked
  parameters_checked i parameters results outs =
      if length parameters == length outs
      then elim (first_unassignable (parameter_error i) 0 parameters outs) [
        | some e ↦ some e
        | none ↦ results_checked i results outs
      ]
      else refused i (
          codes "corrupt function must accept "
          ++ show_nat (length outs)
          ++ codes " parameters (matching target function return values), got "
          ++ show_nat (length parameters))

  signatures_match : ℕ → CorruptFunc → List ℕ → Option Error
  unfolding refused parameters_checked
  signatures_match i nil_corrupt outs = refused i (codes "corrupt function is nil")
  signatures_match i (no_function kind) outs =
      refused i (codes "corrupt function must be a function, got " ++ kind)
  signatures_match i (corrupting parameters results) [] =
      refused i (codes "target function must return at least one value")
  signatures_match i (corrupting parameters results) (out ∷ outs) =
      parameters_checked i parameters results (out ∷ outs)

  not_nil : ℕ → CorruptFunc → Option Error
  unfolding refused
  not_nil i nil_corrupt = refused i (codes "corrupt function is nil")
  not_nil i (no_function kind) = none
  not_nil i (corrupting parameters results) = none

  module _ (p : Platform) where
    open p use {Float, float_lt}

    corruption_parameters : ℕ → ValueCorruptionPatchTarget Float → Option Error
    unfolding probable not_nil
    corruption_parameters i t = elim (probable p i t.probability) [
      | some e ↦ some e
      | none ↦ not_nil i t.corrupt_func
    ]

    unfoldable pub corruption_checks : Checks (ValueCorruptionPatchTarget Float)
    unfolding corruption_parameters signatures_match
    corruption_checks = record {
      func = λ t. t.func;
      parameters = corruption_parameters;
      shape = λ i t. signatures_match i t.corrupt_func t.outs;
      counts_calls = true;
    }

    -- The function that replaces the variable `a`: the original comes first, and the draw after it.
    -- A call that panics does not hand back its counter.
    unfoldable pub corrupted_call :
        {W R : Type 0}
        → (ℕ → Exec W Float)
        → Exec W R
        → (R → Exec W R)
        → ValueCorruptionPatchTarget Float
        → ℕ
        → ℕ
        → Counts
        → Exec W (R × Counts)
    unfolding count_call
    corrupted_call draw original corrupt t a rng counts = original >>= λ results. draw rng >>= λ x.
        if float_lt x t.probability
        then (corrupt results >>= λ r. pure (r, count_call a counts))
        else pure (results, counts)
