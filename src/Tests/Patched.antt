-- ===== src/Tests/Patched.antt =====
-- The injector of delays patches two function variables, and a target for a corrupt function.
use chaoskit.Prelude.{◌==◌, ℕ, ◌+◌, ◌≡◌, ◌↔◌, ◌||◌, refl, Bool, true, false, Option, none, [], ◌∷◌}
use chaoskit.Prelude.Int.{pos}
use chaoskit.Text.{Str, codes}
use chaoskit.Errors.{Error}
use chaoskit.Exec.Ensures.{Leaves, Returns}
use chaoskit.Host.{Host}
use chaoskit.Injectors.Patches.{Target, Memory}
use chaoskit.Injectors.Monkey.{
  DelayPatchTarget, Patching, monkey_patch_delay, inject_patches, stop_patches,
}
use chaoskit.Injectors.Monkey.Checked.{delay_checks}
use chaoskit.Injectors.Monkey.Corruption.{
  CorruptFunc, ValueCorruptionPatchTarget, corruption_checks,
}
use chaoskit.Injectors.Monkey.Corruption.Signatures.{Matching, corruption_checks-Matching}
use chaoskit.Injectors.Monkey.Restored.{stop-after-inject}
use chaoskit.Tests.{thousandths, idle, background}

abbrev still : Host ℕ
still = idle

seeds : Returns (still.new_rand none)
seeds = record { at = λ w u. tt }

abbrev slow : ℕ → DelayPatchTarget ℕ
slow a = record {
  func = Target.function_at a (codes "func()");
  probability = 500;
  min_delay = pos 1;
  max_delay = pos 5;
  delay_before = true;
  func_name = [];
}

abbrev slowing : Patching (DelayPatchTarget ℕ)
slowing = monkey_patch_delay (slow 1 ∷ slow 2 ∷ [])

abbrev held : Memory
held a = 10 + a

abbrev replaced : DelayPatchTarget ℕ → ℕ → ℕ → ℕ
replaced t rng original = 100 + original

stop-after-inject_example :
    Leaves {S = ℕ} {A = Option Error × (Patching (DelayPatchTarget ℕ) × Memory)}
      (λ x _. (stop_patches x.1.0 x.1.1).1 2 ≡ 12)
      (λ _. ⊥)
      (inject_patches (delay_checks thousandths) still replaced slowing background held 0)
unfolding monkey_patch_delay delay_checks
stop-after-inject_example =
    stop-after-inject (delay_checks thousandths) still replaced seeds slowing background held 0 2
      refl refl (refl, (refl, tt))

-- A function of one result, and a corrupt function from its type to its type.
abbrev corrupted : ValueCorruptionPatchTarget ℕ
corrupted = record {
  func = Target.function_at 1 (codes "func() int");
  outs = 7 ∷ [];
  corrupt_func = CorruptFunc.corrupting (7 ∷ []) (7 ∷ []);
  probability = 50;
  func_name = [];
}

abbrev named : ℕ → Str
named a = codes "int"

abbrev same : ℕ → ℕ → Bool
same a b = a == b

corruption_checks-Matching_example :
    (((corruption_checks named same thousandths).parameters 3 corrupted ≡ none)
      × ((corruption_checks named same thousandths).shape 3 corrupted ≡ none))
    ↔ (((thousandths.float_lt 50 (thousandths.literal 0 0)
            || thousandths.float_lt (thousandths.literal 1 0) 50)
          ≡ false)
        × Matching named same (CorruptFunc.corrupting (7 ∷ []) (7 ∷ [])) (7 ∷ []))
corruption_checks-Matching_example = corruption_checks-Matching named same thousandths 3 corrupted

-- The checks accept it.
accepted : (corruption_checks named same thousandths).shape 3 corrupted ≡ none
unfolding corruption_checks
accepted = refl
