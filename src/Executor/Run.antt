-- ===== src/Executor/Run.antt =====
-- executor.go: Run and stopInjectors.
use chaoskit.Prelude.{ℕ, Option, none, some, List, [], ◌∷◌, ◌++◌, if◌then◌else◌}
use chaoskit.Prelude.Int.{pos, ltb_ℤ}
use chaoskit.Text.{codes, show_int}
use chaoskit.Errors.{Error, plain, wrapped}
use chaoskit.Exec.{Exec, pure, defer, ◌>>=◌, ◌>>◌}
use chaoskit.Host.{Host, Context}
use chaoskit.ChaosContext.{attach_rand}
use chaoskit.Scenario.{Scenario}
use chaoskit.Executor.{State, FailurePolicy, call, all_injectors}
use chaoskit.Executor.Loop.{run_repeated, run_for_duration}

abbrev pub repeat_error : Scenario → Error
repeat_error sc = plain (
    codes "scenario "
    ++ sc.name
    ++ codes ": repeat must be > 0 (got "
    ++ show_int sc.repeat
    ++ codes "), use RunFor() for duration-based execution")

module _ {W : Type 0} (h : Host W) where
  -- An error of Stop, TeardownNetwork or Teardown is logged and dropped.
  unfoldable pub stop_injectors : Context W → List ℕ → Exec W (Unit {0})
  stop_injectors ctx [] = pure tt
  stop_injectors ctx (i ∷ is) = do h.stop i ctx; stop_injectors ctx is

  unfoldable pub teardown_networks : Context W → List ℕ → Exec W (Unit {0})
  teardown_networks ctx [] = pure tt
  teardown_networks ctx (i ∷ is) = do
    if h.is_network i then (h.teardown_network i ctx >>= λ _. pure tt) else pure tt
    teardown_networks ctx is

  -- The injectors whose network is set up, and the error that ended the loop.
  unfoldable pub setup_networks : Context W → List ℕ → List ℕ → Exec W (List ℕ × Option Error)
  setup_networks ctx up [] = pure (up, none)
  setup_networks ctx up (i ∷ is) =
      if h.is_network i
      then (h.setup_network i ctx >>= λ failed. elim failed [
        | none ↦ setup_networks ctx (up ++ i ∷ []) is
        | some e ↦ pure (
          up,
          some (wrapped (codes "network setup failed for " ++ h.injector_name i ++ codes ": ") e),
        )
      ])
      else setup_networks ctx up is

  -- The started injectors, and the error that ended the loop.
  unfoldable pub start_injectors : Context W → List ℕ → List ℕ → Exec W (List ℕ × Option Error)
  start_injectors ctx active [] = pure (active, none)
  start_injectors ctx active (i ∷ is) = do
    failed ← h.inject i ctx
    elim failed [
      | none ↦ start_injectors ctx (active ++ i ∷ []) is
      | some e ↦ do
        stop_injectors ctx active
        pure
            (active, some (wrapped (codes "injector " ++ h.injector_name i ++ codes " failed: ") e))
    ]

  module _ (policy : FailurePolicy) (sc : Scenario) (target : ℕ) (fuel : ℕ) where
    -- The loops; `none` is a duration-based run that used up its fuel.
    unfoldable pub run_loop : Context W → Exec (State W) (Option (Option Error))
    run_loop ctx =
        if ltb_ℤ (pos 0) sc.duration
        then run_for_duration h policy sc target fuel ctx
        else if ltb_ℤ (pos 0) sc.repeat
        then (run_repeated h policy sc target ctx >>= λ e. pure (some e))
        else pure (some (some (repeat_error sc)))

    unfoldable pub run_started : Context W → Exec (State W) (Option (Option Error))
    unfolding run_loop
    run_started ctx = do
      (active, failed) ← call (start_injectors ctx [] (all_injectors sc))
      elim failed [
        | some e ↦ pure (some (some e))
        | none ↦ defer (call (stop_injectors ctx active)) (run_loop ctx)
      ]

    -- The teardown of the networks is deferred once all of them are set up.
    unfoldable pub run_networked : Context W → Exec (State W) (Option (Option Error))
    unfolding run_started
    run_networked ctx = do
      (up, failed) ← call (setup_networks ctx [] (all_injectors sc))
      elim failed [
        | some e ↦ pure (some (some e))
        | none ↦ defer (call (teardown_networks ctx up)) (run_started ctx)
      ]

    unfoldable pub run_target : Context W → Exec (State W) (Option (Option Error))
    unfolding run_networked
    run_target ctx = do
      failed ← call (h.setup target ctx)
      elim failed [
        | some e ↦ pure (some (some (wrapped (codes "setup failed: ") e)))
        | none ↦ defer (call (h.teardown target ctx >>= λ _. pure tt)) (run_networked ctx)
      ]

  abbrev pub no_target : Scenario → Error
  no_target sc = plain (codes "scenario " ++ sc.name ++ codes " has no target")

  unfoldable pub run :
      FailurePolicy → ℕ → Scenario → Context W → Exec (State W) (Option (Option Error))
  unfolding run_target attach_rand
  run policy fuel sc ctx = elim sc.target [
    | none ↦ pure (some (some (no_target sc)))
    | some target ↦ call (h.new_rand sc.seed) >>= λ rng.
        run_target policy sc target fuel (attach_rand h ctx rng)
  ]
