-- ===== src/Injectors/Monkey.antt =====
-- injectors/monkey_patch_delay.go, monkey_patch_error.go, monkey_patch_panic.go, and with
-- Monkey/Timeouts and Monkey/Corruption two more: the injectors that patch function variables. They share their loop over the targets; `Patching` is the struct of
-- each, with the type of its targets. A closure that replaces a function is a number that
-- `replacement` makes from the target, the generator and the original (Monkey/Calls tells what the
-- closure does). ApplyPatch never answers an error, so that the rollback behind it is left out.
pub mod Calls
pub mod Checked
pub mod Corruption
pub mod Timeouts
pub mod Restored
use chaoskit.Prelude.{
  ℕ, suc, ◌==◌, ◌++◌, ◌||◌, Bool, true, false, Option, none, some, List, [], ◌∷◌, length,
  if◌then◌else◌,
}
use chaoskit.Prelude.Int.{ℤ, pos, ltb_ℤ}
use chaoskit.Text.{Str, codes, show_nat}
use chaoskit.Errors.{Error, Result, ok, err, plain, wrapped}
use chaoskit.Platform.{Platform}
use chaoskit.Exec.{Exec, panics, pure, ◌>>=◌}
use chaoskit.Host.{Host, Context}
use chaoskit.ChaosContext.{get_rand}
use chaoskit.Injectors.Chance.{already_stopped}
use chaoskit.Injectors.Patches.{
  Memory, Target, PatchHandle, PatchManager, new_patch_manager, validate_function, create_patch,
  apply_patch, add_patch, restore_all_patches, validate_probability,
}

pub record PatchTarget (Float : Type 0) : Type 0 where
  pub func : Target
  pub probability : Float
  pub panic_message : Str
  pub func_name : Str

pub record DelayPatchTarget (Float : Type 0) : Type 0 where
  pub func : Target
  pub probability : Float
  pub min_delay : ℤ
  pub max_delay : ℤ
  pub delay_before : Bool
  pub func_name : Str

-- The last result of a function, as reflection finds it: none, an error, or a type with a name.
pub data LastOut : Type 0 where
  no_out : LastOut
  error_out : LastOut
  other_out : Str → LastOut

-- `last_out` belongs to the type of the function.
pub record ErrorPatchTarget (Float : Type 0) : Type 0 where
  pub func : Target
  pub last_out : LastOut
  pub error : Option Error
  pub error_func : Option ℕ
  pub probability : Float
  pub func_name : Str

-- A map from function variables to counters.
abbrev pub Counts : Type 0
Counts = ℕ → Option ℤ

abbrev pub put : ℕ → ℤ → Counts → Counts
put a n counts b = if b == a then some n else counts b

pub record Patching (T : Type 0) : Type 0 where
  pub name : Str
  pub targets : List T
  pub patch_manager : PatchManager
  pub counts : Counts
  pub stopped : Bool

unfoldable pub new_patching : {T : Type 0} → Str → List T → Patching T
unfolding new_patch_manager
new_patching kind targets = record {
  name =
      codes "monkey_patch_" ++ kind ++ codes "_" ++ show_nat (length targets) ++ codes "_targets";
  targets = targets;
  patch_manager = new_patch_manager;
  counts = λ a. none;
  stopped = false;
}

unfoldable pub monkey_patch_panic :
    {Float : Type 0} → List (PatchTarget Float) → Patching (PatchTarget Float)
unfolding new_patching
monkey_patch_panic targets = new_patching (codes "panic") targets

unfoldable pub monkey_patch_delay :
    {Float : Type 0} → List (DelayPatchTarget Float) → Patching (DelayPatchTarget Float)
unfolding new_patching
monkey_patch_delay targets = new_patching (codes "delay") targets

unfoldable pub monkey_patch_error :
    {Float : Type 0} → List (ErrorPatchTarget Float) → Patching (ErrorPatchTarget Float)
unfolding new_patching
monkey_patch_error targets = new_patching (codes "error") targets

abbrev pub invalid : ℕ → Str
invalid i = codes "invalid target " ++ show_nat i ++ codes ": "

-- What an injector asks of a target: first of its parameters, then, behind ValidateFunction, of the
-- type of the function.
pub record Checks (T : Type 0) : Type 0 where
  pub func : T → Target
  pub parameters : ℕ → T → Option Error
  pub shape : ℕ → T → Option Error
  pub counts_calls : Bool

-- The handle for target `i`, or the error that ends the loop. Behind ValidateFunction, CreatePatch
-- does not fail.
prepared : ℕ → Option Error → Target → Option Error → Memory → Result PatchHandle
unfolding validate_function create_patch
prepared i (some e) target shape m = err e
prepared i none target shape m = elim (validate_function target) [
  | ok a ↦ elim shape [ some e ↦ err e | none ↦ create_patch target m ]
  | err e ↦ err (wrapped (invalid i) e)
  | Result.panic v ↦ Result.panic v
]

-- Where the injector is not stopped already, RestoreAllPatches is called.
stop_unless : {T : Type 0} → Bool → Patching T → Memory → Patching T × Memory
unfolding restore_all_patches
stop_unless true q m = (q, m)
stop_unless false q m =
    let x = restore_all_patches q.patch_manager m in
    (record q { patch_manager = x.0; stopped = true }, x.1)

unfoldable pub stop_patches : {T : Type 0} → Patching T → Memory → Patching T × Memory
unfolding stop_unless
stop_patches q m = stop_unless q.stopped q m

module _ {T : Type 0} (checks : Checks T) {W : Type 0} (h : Host W)
    (replacement : T → ℕ → ℕ → ℕ) where
  -- The patch is applied and added, and its counter set to 0.
  patched_with : T → PatchHandle → ℕ → Patching T × Memory → Patching T × Memory
  unfolding apply_patch add_patch
  patched_with t handle rng (q, m) =
      let x = apply_patch handle (replacement t rng handle.original) m in
      (
        record q {
          patch_manager = add_patch x.0 q.patch_manager;
          counts = if checks.counts_calls then put handle.func (pos 0) q.counts else q.counts;
        },
        x.1,
      )

  -- The early return of an error.
  after_check :
      Result PatchHandle
      → (PatchHandle → Exec W (Option Error × (Patching T × Memory)))
      → Patching T × Memory
      → Exec W (Option Error × (Patching T × Memory))
  after_check (ok handle) next x = next handle
  after_check (err e) next x = pure (some e, x)
  after_check (Result.panic v) next x = λ w. (panics v, w)

  -- The loop of Inject. On an error, the patches before it stay.
  unfoldable pub patch_each :
      ℕ → List T → Context W → Patching T × Memory → Exec W (Option Error × (Patching T × Memory))
  unfolding prepared patched_with after_check
  patch_each i [] ctx x = pure (none, x)
  patch_each i (t ∷ ts) ctx x =
      after_check (prepared i (checks.parameters i t) (checks.func t) (checks.shape i t) x.1)
        (λ handle.
          get_rand h ctx >>= λ rng. patch_each (suc i) ts ctx (patched_with t handle rng x))
        x

  unfoldable pub inject_patches :
      Patching T → Context W → Memory → Exec W (Option Error × (Patching T × Memory))
  unfolding patch_each
  inject_patches q ctx m =
      if q.stopped then pure (some already_stopped, (q, m)) else patch_each 0 q.targets ctx (q, m)
