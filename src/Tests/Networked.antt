-- ===== src/Tests/Networked.antt =====
-- The networks of a run in the world that counts those which are up.
use chaoskit.Prelude.{
  ℕ, ◌≡◌, refl, ap, ◌∙◌, ◌==◌, Bool, true, false, All, arith, Bool-cases, inl, inr, List, [], ◌∷◌,
  ◌++◌,
}
use chaoskit.Exec.{◌>>=◌, defer}
use chaoskit.Exec.Ensures.{Ensures}
use chaoskit.Executor.{continue_on_failure, call, all_injectors, record_result}
use chaoskit.Executor.Books.{fresh}
use chaoskit.Executor.ChaosBuild.{build_chaos_context, collect_metrics}
use chaoskit.Executor.Networks.{Settable, Settled, run_networked-Settled}
use chaoskit.Executor.Loop.{iterate, reset_validators, run_repeated, run_repeated_from}
use chaoskit.Executor.Once.{execute_once, run_step}
use chaoskit.Executor.Run.{
  run_loop, run_started, run_networked, setup_networks, start_injectors, stop_injectors,
}
use chaoskit.Tests.{networks, anywhere, injected, remove}

abbrev Up : List ℕ → List ℕ → Type 0
Up l w = w ≡ l

-- As the program's own network injector does, injector 3 leaves its network up once it is stopped.
abbrev sticks : ℕ → Bool
sticks i = i == 3

remove-other :
    (i : ℕ) (before l : List ℕ)
    → (i == 3) ≡ false
    → All (λ j. sticks j ≡ true) before
    → remove i (before ++ i ∷ l) ≡ before ++ l
remove-other i [] l e s = ground arith
remove-other i (j ∷ before) l e (t, s) = ground (arith, remove-other i before l e s)

promises : Settable networks anywhere sticks Up Up
promises = record {
  sets_up = λ i l. record {
    at = λ w p. elim (Bool-cases (i == 2)) [
      | inl e ↦ rw e p
      | inr e ↦ rw e (ap (λ m. m ++ i ∷ []) p)
    ];
  };
  tears_down = λ i before l s. record {
    at = λ w p. elim (Bool-cases (i == 3)) [
      | inl e ↦ rw e p
      | inr e ↦ rw e (ap (λ m. remove i m) p ∙ remove-other i before l e s)
    ];
  };
}

rest_keeps :
    (l : List ℕ)
    → Ensures
        (λ s. Up l s.world)
        (run_started networks continue_on_failure injected 0 0 anywhere)
        (λ _ s. Up l s.world)
        (λ s. Up l s.world)
unfolding run_started start_injectors stop_injectors run_loop run_repeated run_repeated_from iterate
    ◌>>=◌ defer call reset_validators execute_once run_step all_injectors build_chaos_context
    record_result collect_metrics
rest_keeps l = record { at = λ s p. p }

run_networked-Settled_example :
    Settled networks anywhere sticks Up Up promises
      (all_injectors injected)
      (setup_networks networks anywhere [] (all_injectors injected) []).0
      (run_networked networks continue_on_failure injected 0 0 anywhere
        (fresh networks injected []))
run_networked-Settled_example =
    run_networked-Settled networks anywhere sticks Up Up promises continue_on_failure injected 0 0
      rest_keeps (fresh networks injected []) refl
