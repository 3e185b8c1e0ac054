-- ===== src/Executor/Lifecycle.antt =====
-- Every injector that Run starts is stopped again (executor.go).
use chaoskit.Prelude.{ℕ, Option, none, some, List, [], ◌∷◌, ◌++◌}
use chaoskit.Errors.{Error}
use chaoskit.Exec.{Exec, Outcome, returns, panics, pure, defer}
use chaoskit.Exec.Ensures.{
  Ensures, Leaves, Ensures-pure, Ensures-bind, Ensures-defer, Ensures-weaken,
}
use chaoskit.Host.{Host, Context}
use chaoskit.Scenario.{Scenario}
use chaoskit.Executor.{State, FailurePolicy, call, all_injectors}
use chaoskit.Executor.Run.{start_injectors, stop_injectors, run_loop, run_started}

-- A call's effect on the user's world.
pub call_ensures :
    {W A : Type 0} {P : W → Type 0} {Q : A → W → Type 0} {R : W → Type 0} {m : Exec W A}
    → Ensures P m Q R
    → Ensures (λ s. P s.world) (call m) (λ a s. Q a s.world) (λ s. R s.world)
unfolding call
call_ensures {W} {A} {P} {Q} {R} {m} e = record { at = λ s p. left s (m s.world) (e.at s.world p) }
  where
    left :
        (s : State W) (x : Outcome A × W)
        → Leaves Q R x
        → Leaves
            (λ a s'. Q a s'.world)
            (λ s'. R s'.world)
            ((let (r, w) = x in (r, record s { world = w })))
    left s (returns a, w) l = l
    left s (panics v, w) l = l

-- What an injector promises: Inject starts it unless it returns an error, Stop stops it in any case,
-- and neither panics. `Running l w`: in the world `w` exactly the injectors `l` run, in this order of
-- their start.
pub record Startable {W : Type 0} (h : Host W) (ctx : Context W) (Running : List ℕ → W → Type 0)
    : Type 0 where
  pub starts :
      (i : ℕ) (l : List ℕ)
      → Ensures
          (Running l)
          (h.inject i ctx)
          (λ o. elim o [ none ↦ Running (l ++ i ∷ []) | some _ ↦ Running l ])
          (λ _. ⊥)
  pub stops :
      (i : ℕ) (l : List ℕ) → Ensures (Running (i ∷ l)) (h.stop i ctx) (λ _. Running l) (λ _. ⊥)

module _ {W : Type 0} (h : Host W) (ctx : Context W) (Running : List ℕ → W → Type 0)
    (startable : Startable h ctx Running) where
  stop_injectors_ensures :
      (l : List ℕ) → Ensures (Running l) (stop_injectors h ctx l) (λ _. Running []) (λ _. ⊥)
  unfolding stop_injectors
  stop_injectors_ensures [] = Ensures-pure tt (λ s p. p)
  stop_injectors_ensures (i ∷ l) = Ensures-bind (startable.stops i l) λ _. stop_injectors_ensures l

  -- On success the started injectors run; on an error none does.
  abbrev Started : List ℕ × Option Error → W → Type 0
  Started (active, none) w = Running active w
  Started (active, some e) w = Running [] w

  start_injectors_ensures :
      (active is : List ℕ)
      → Ensures (Running active) (start_injectors h ctx active is) Started (λ _. ⊥)
  unfolding start_injectors
  start_injectors_ensures active [] = Ensures-pure _ (λ s p. p)
  start_injectors_ensures active (i ∷ is) = Ensures-bind (startable.starts i active) (elim [
    | none ↦ start_injectors_ensures (active ++ i ∷ []) is
    | some e ↦ Ensures-bind (stop_injectors_ensures active) λ _. Ensures-pure _ (λ s p. p)
  ])

  stopped :
      {A : Type 0} (l : List ℕ) (a : A)
      → Ensures
          (λ (s : State W). Running l s.world)
          (call (stop_injectors h ctx l))
          (λ _ s. Running [] s.world)
          (λ s. Running [] s.world)
  stopped l a =
      Ensures-weaken (call_ensures (stop_injectors_ensures l)) (λ s p. p) (λ _ s p. p)
        (λ s p. absurd p)

  after_start :
      (policy : FailurePolicy) (sc : Scenario) (target fuel : ℕ) (a : List ℕ × Option Error)
      → ((l : List ℕ)
          → Ensures
              (λ s. Running l s.world)
              (run_loop h policy sc target fuel ctx)
              (λ _ s. Running l s.world)
              (λ s. Running l s.world))
      → Ensures
          (λ s. Started a s.world)
          (elim a.1 [
            | some e ↦ pure (some (some e))
            | none ↦ defer (call (stop_injectors h ctx a.0)) (run_loop h policy sc target fuel ctx)
          ])
          (λ _ s. Running [] s.world)
          (λ s. Running [] s.world)
  after_start policy sc target fuel (active, some e) loop = Ensures-pure _ (λ s p. p)
  after_start policy sc target fuel (active, none) loop =
      Ensures-defer (loop active) (λ o. stopped active o) (stopped active tt)

  -- Run's part from the first Inject on, in a world where no injector runs, for injectors that keep
  -- their promises and a loop whose code neither starts nor stops injectors: when it is left, by a
  -- return or by a panic of the loop, no injector is running any more, also when one of them failed
  -- to start.
  pub run_started-stops :
      (policy : FailurePolicy) (sc : Scenario) (target fuel : ℕ) (s : State W)
      → ((l : List ℕ)
          → Ensures
              (λ s. Running l s.world)
              (run_loop h policy sc target fuel ctx)
              (λ _ s. Running l s.world)
              (λ s. Running l s.world))
      → Running [] s.world
      → Leaves
          (λ _ s'. Running [] s'.world)
          (λ s'. Running [] s'.world)
          (run_started h policy sc target fuel ctx s)
  unfolding run_started
  run_started-stops policy sc target fuel s loop none_runs =
      (Ensures-bind {T = λ a s. Started a s.world}
          (Ensures-weaken (call_ensures (start_injectors_ensures [] (all_injectors sc))) (λ s p. p)
            (λ a s p. p) (λ s p. absurd p))
          (λ a. after_start policy sc target fuel a loop)).at
        s none_runs
