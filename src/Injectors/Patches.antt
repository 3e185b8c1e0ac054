-- ===== src/Injectors/Patches.antt =====
-- injectors/monkey_patch_common.go: patches of function variables, and the manager that keeps them.
-- A function variable is an address in `Memory`, which gives the function that it holds (a number).
-- Building a function of the right type by reflection is left out: a replacement is a function.
pub mod Order
use chaoskit.Prelude.{
  ℕ, zero, suc, ◌==◌, ◌||◌, Bool, true, false, Option, none, some, List, [], ◌∷◌, ◌++◌,
  if◌then◌else◌,
}
use chaoskit.Text.{Str, codes, str_eq}
use chaoskit.Errors.{Error, Result, ok, err, plain}
use chaoskit.Platform.{Platform}

abbrev pub Memory : Type 0
Memory = ℕ → ℕ

abbrev pub set_at : ℕ → ℕ → Memory → Memory
set_at a f m b = if b == a then f else m b

-- What reflection finds in the value that the user passed: with the name of its kind, where it is
-- no pointer, or no pointer to a function; and the name of its type.
pub data Target : Type 0 where
  nil_value : Target
  not_pointer : Str → Target
  not_function : Str → Target
  function_at : ℕ → Str → Target

pub record PatchHandle : Type 0 where
  pub func : ℕ
  pub original : ℕ
  pub restorable : Bool
  pub patched : Bool

pub record PatchManager : Type 0 where
  pub patches : List PatchHandle

unfoldable pub new_patch_manager : PatchManager
new_patch_manager = record { patches = [] }

unfoldable pub validate_function : Target → Result ℕ
validate_function nil_value = err (plain (codes "function is nil"))
validate_function (not_pointer kind) =
    err (plain (codes "function must be a pointer, got " ++ kind))
validate_function (not_function kind) =
    err (plain (codes "target must be a function pointer, got " ++ kind))
validate_function (function_at a name) = ok a

unfoldable pub create_patch : Target → Memory → Result PatchHandle
unfolding validate_function
create_patch target m = elim (validate_function target) [
  | ok a ↦ ok (record { func = a; original = m a; restorable = false; patched = false })
  | err e ↦ err e
  | Result.panic v ↦ Result.panic v
]

unfoldable pub apply_patch : PatchHandle → ℕ → Memory → PatchHandle × Memory
apply_patch h replacement m =
    (record h { restorable = true; patched = true }, set_at h.func replacement m)

-- A handle that is not patched, or has no restore function, is left alone.
restore_when : Bool → Bool → PatchHandle → Memory → PatchHandle × Memory
restore_when true true h m = (record h { patched = false }, set_at h.func h.original m)
restore_when true false h m = (h, m)
restore_when false b h m = (h, m)

unfoldable pub restore_patch : PatchHandle → Memory → PatchHandle × Memory
unfolding restore_when
restore_patch h m = restore_when h.patched h.restorable h m

unfoldable pub add_patch : PatchHandle → PatchManager → PatchManager
add_patch h pm = record { patches = pm.patches ++ h ∷ [] }

-- The loop of RestoreAllPatches, in the order in which the patches were added. RestorePatch tests
-- `Patched` as the loop does.
unfoldable pub restore_each : List PatchHandle → Memory → List PatchHandle × Memory
unfolding restore_patch
restore_each [] m = ([], m)
restore_each (h ∷ hs) m =
    let x = restore_patch h m in let y = restore_each hs x.1 in (x.0 ∷ y.0, y.1)

unfoldable pub restore_all_patches : PatchManager → Memory → PatchManager × Memory
unfolding restore_each
restore_all_patches pm m = let x = restore_each pm.patches m in (record { patches = x.0 }, x.1)

-- The loop of RollbackPatches: the first `up_to` patches.
restore_first : ℕ → List PatchHandle → Memory → List PatchHandle × Memory
unfolding restore_patch
restore_first zero hs m = (hs, m)
restore_first (suc n) [] m = ([], m)
restore_first (suc n) (h ∷ hs) m =
    let x = restore_patch h m in let y = restore_first n hs x.1 in (x.0 ∷ y.0, y.1)

unfoldable pub rollback_patches : ℕ → PatchManager → Memory → PatchManager × Memory
unfolding restore_first
rollback_patches up_to pm m =
    let x = restore_first up_to pm.patches m in (record { patches = x.0 }, x.1)

active_in : List PatchHandle → ℕ
active_in [] = 0
active_in (h ∷ hs) = if h.patched then suc (active_in hs) else active_in hs

unfoldable pub get_active_patch_count : PatchManager → ℕ
unfolding active_in
get_active_patch_count pm = active_in pm.patches

-- The name that the user gave, or that of the function's type.
unfoldable pub get_func_name : Str → Str → Str
get_func_name type_name custom_name = if str_eq custom_name [] then type_name else custom_name

module _ (p : Platform) where
  open p use {Float, float_lt, literal, show_fixed}

  unfoldable pub validate_probability : Float → Option Error
  validate_probability q =
      if float_lt q (literal 0 0) || float_lt (literal 1 0) q
      then some (plain (codes "probability must be between 0.0 and 1.0, got " ++ show_fixed q))
      else none
