-- ===== src/Executor/Invariants.antt =====
-- Invariants of the executor's own state, through every loop and every way out (executor.go).
use chaoskit.Prelude.{ℕ, zero, suc, ◌+◌, Option, none, some, List, [], ◌∷◌}
use chaoskit.Prelude.Int.{pos, ltb_ℤ}
use chaoskit.Text.{Str}
use chaoskit.Errors.{Error}
use chaoskit.Exec.{Exec, Outcome, returns, panics, pure, defer, ◌>>=◌}
use chaoskit.Exec.Ensures.{
  Ensures, Keeps, Leaves, Ensures-pure, Ensures-bind, Ensures-if, Ensures-defer, Ensures-weaken,
  Keeps-Anything, Anything,
}
use chaoskit.Host.{Host, Context, Chaos}
use chaoskit.ChaosContext.{attach_rand}
use chaoskit.Execution.{ExecutionResult}
use chaoskit.Metrics.{record_injector_metrics}
use chaoskit.Scenario.{Scenario}
use chaoskit.Executor.{State, FailurePolicy, call, record_result, all_injectors}
use chaoskit.Executor.ChaosBuild.{build_chaos_context, build_from, collect_metrics, with_injector}
use chaoskit.Executor.Once.{execute_once, ensure_rand}
use chaoskit.Executor.Outcomes.{IsExecution, perform-IsExecution}
use chaoskit.Executor.Loop.{
  go_on, return_with, iterate, poll, run_repeated_from, run_repeated, run_until_from,
  run_for_duration, reset_validators,
}
use chaoskit.Executor.Run.{
  run_loop, run_started, run_networked, run_target, run, start_injectors, setup_networks,
  stop_injectors, teardown_networks, no_target,
}

module _ {W : Type 0} where
  -- A statement about the collectors, which calls out of the executor do not touch.
  pub record IsInternal (I : State W → Type 0) : Type 0 where
    pub any_world : (s : State W) (w : W) → I s → I (record s { world = w })
    pub any_metrics :
        (s : State W) (name : Str) (v : ℕ)
        → I s
        → I (record s { metrics = record_injector_metrics s.metrics name v })

module _ {W : Type 0} {I : State W → Type 0} (internal : IsInternal I) where
  call_at :
      {A : Type 0} (C : A → Type 0) (s : State W) (x : Outcome A × W)
      → I s
      → Leaves (λ a _. C a) Anything x
      → Leaves (λ a s'. I s' × C a) I ((let (r, w) = x in (r, record s { world = w })))
  call_at C s (returns a, w) i l = (internal.any_world s w i, l)
  call_at C s (panics v, w) i l = internal.any_world s w i

  -- A call keeps the invariant and adds what is known of its value.
  pub Ensures-call :
      {A : Type 0} {C : A → Type 0} {m : Exec W A}
      → Ensures Anything m (λ a _. C a) Anything
      → Ensures I (call m) (λ a s. I s × C a) I
  unfolding call
  Ensures-call {C = C} {m = m} h = record {
    at = λ s i. call_at C s (m s.world) i (h.at s.world tt);
  }

  pub Keeps-call : {A : Type 0} (m : Exec W A) → Keeps I (call m)
  Keeps-call m =
      Ensures-weaken (Ensures-call (Keeps-Anything m)) (λ s i. i) (λ a s p. p.0) (λ s i. i)

  module _ (h : Host W) where
    collect_metrics-Keeps : (i : ℕ) → Keeps I (collect_metrics h i)
    unfolding collect_metrics
    collect_metrics-Keeps i =
        Ensures-if (h.is_metrics_provider i)
          (λ _.
            Ensures-bind (Keeps-call (h.get_metrics i))
              λ m. record { at = λ s p. internal.any_metrics s (h.injector_name i) m p })
          (λ _. Ensures-pure tt (λ s p. p))

    build_from-Keeps :
        (ctx : Context W) (c : Chaos W) (is : List ℕ) → Keeps I (build_from h ctx c is)
    unfolding build_from
    build_from-Keeps ctx c [] = Ensures-pure c (λ s p. p)
    build_from-Keeps ctx c (i ∷ is) =
        Ensures-bind (collect_metrics-Keeps i)
          λ _. build_from-Keeps ctx (with_injector h ctx i c) is

    pub execute_once_ensures :
        (sc : Scenario) (target : ℕ) (ctx : Context W)
        → Ensures I (execute_once h sc target ctx) (λ r s. I s × IsExecution h sc r) I
    unfolding execute_once build_chaos_context
    execute_once_ensures sc target ctx = Ensures-bind (Keeps-call h.now) λ start.
        Ensures-bind (Keeps-call (ensure_rand h sc ctx)) λ seeded.
          Ensures-bind (build_from-Keeps _ _ (all_injectors sc))
            λ chaos. Ensures-call (perform-IsExecution h sc target _ start)

-- An invariant that recording the result of an execution keeps too.
pub record IsInvariant {W : Type 0} (h : Host W) (sc : Scenario) (I : State W → Type 0)
    : Type 0 where
  pub internal : IsInternal I
  pub recorded : (r : ExecutionResult) → IsExecution h sc r → Keeps I (record_result r)

module _ {W : Type 0} (h : Host W) (sc : Scenario) {I : State W → Type 0} (inv : IsInvariant h sc I)
    (policy : FailurePolicy) (target : ℕ) where
  iterate-Keeps :
      (ctx : Context W) (n : ℕ) (first : Option Error)
      → Keeps I (iterate h policy sc target ctx n first)
  unfolding iterate
  iterate-Keeps ctx n first =
      Ensures-bind (Keeps-call inv.internal (reset_validators h sc.validators)) λ _.
        Ensures-bind (execute_once_ensures inv.internal h sc target ctx) λ r.
          Ensures-bind {T = λ _. I} (record { at = λ s p. (inv.recorded r p.1).at s p.0 })
            λ _. Ensures-pure _ (λ s p. p)

  poll-Keeps : (ctx : Context W) → Keeps I (poll h ctx)
  unfolding poll
  poll-Keeps ctx = record { at = λ s p. p }

  run_repeated_from-Keeps :
      (ctx : Context W) (left n : ℕ) (first : Option Error)
      → Keeps I (run_repeated_from h policy sc target ctx left n first)
  unfolding run_repeated_from
  run_repeated_from-Keeps ctx zero n first = Ensures-pure first (λ s p. p)
  run_repeated_from-Keeps ctx (suc left) n first = Ensures-bind (poll-Keeps ctx) (elim [
    | some e ↦ Ensures-pure _ (λ s p. p)
    | none ↦ Ensures-bind (iterate-Keeps ctx n first) (elim [
      | return_with e ↦ Ensures-pure _ (λ s p. p)
      | go_on first' ↦ run_repeated_from-Keeps ctx left (n + 1) first'
    ])
  ])

  run_until_from-Keeps :
      (ctx : Context W) (fuel n : ℕ) (first : Option Error)
      → Keeps I (run_until_from h policy sc target ctx fuel n first)
  unfolding run_until_from
  run_until_from-Keeps ctx zero n first = Ensures-pure none (λ s p. p)
  run_until_from-Keeps ctx (suc fuel) n first = Ensures-bind (poll-Keeps ctx) (elim [
    | some e ↦ Ensures-pure _ (λ s p. p)
    | none ↦ Ensures-bind (iterate-Keeps ctx n first) (elim [
      | return_with e ↦ Ensures-pure _ (λ s p. p)
      | go_on first' ↦ run_until_from-Keeps ctx fuel (n + 1) first'
    ])
  ])

  deferred_call :
      {A : Type 0} (cleanup : Exec W (Unit {0})) {body : Exec (State W) A}
      → Keeps I body
      → Keeps I (defer (call cleanup) body)
  deferred_call cleanup k =
      Ensures-defer k (λ a. Keeps-call inv.internal cleanup) (Keeps-call inv.internal cleanup)

  run_loop-Keeps : (fuel : ℕ) (ctx : Context W) → Keeps I (run_loop h policy sc target fuel ctx)
  unfolding run_loop run_for_duration run_repeated
  run_loop-Keeps fuel ctx =
      Ensures-if (ltb_ℤ (pos 0) sc.duration)
        (λ _.
          Ensures-bind (Keeps-call inv.internal (h.with_timeout ctx.handle sc.duration)) λ handle.
            deferred_call (h.cancel handle)
              (run_until_from-Keeps (record ctx { handle = handle }) fuel 1 none))
        (λ _.
          Ensures-if (ltb_ℤ (pos 0) sc.repeat)
            (λ _.
              Ensures-bind (run_repeated_from-Keeps ctx _ 1 none) λ e. Ensures-pure _ (λ s p. p))
            (λ _. Ensures-pure _ (λ s p. p)))

  run_started-Keeps :
      (fuel : ℕ) (ctx : Context W) → Keeps I (run_started h policy sc target fuel ctx)
  unfolding run_started
  run_started-Keeps fuel ctx =
      Ensures-bind (Keeps-call inv.internal (start_injectors h ctx [] (all_injectors sc)))
        (started ctx)
    where
      started :
          (ctx : Context W) (a : List ℕ × Option Error)
          → Keeps I (elim a.1 [
            | some e ↦ pure (some (some e))
            | none ↦ defer (call (stop_injectors h ctx a.0)) (run_loop h policy sc target fuel ctx)
          ])
      started ctx (active, some e) = Ensures-pure _ (λ s p. p)
      started ctx (active, none) =
          deferred_call (stop_injectors h ctx active) (run_loop-Keeps fuel ctx)

  run_networked-Keeps :
      (fuel : ℕ) (ctx : Context W) → Keeps I (run_networked h policy sc target fuel ctx)
  unfolding run_networked
  run_networked-Keeps fuel ctx =
      Ensures-bind (Keeps-call inv.internal (setup_networks h ctx [] (all_injectors sc)))
        (set_up ctx)
    where
      set_up :
          (ctx : Context W) (a : List ℕ × Option Error)
          → Keeps I (elim a.1 [
            | some e ↦ pure (some (some e))
            | none ↦
                defer (call (teardown_networks h ctx a.0)) (run_started h policy sc target fuel ctx)
          ])
      set_up ctx (up, some e) = Ensures-pure _ (λ s p. p)
      set_up ctx (up, none) =
          deferred_call (teardown_networks h ctx up) (run_started-Keeps fuel ctx)

  run_target-Keeps : (fuel : ℕ) (ctx : Context W) → Keeps I (run_target h policy sc target fuel ctx)
  unfolding run_target
  run_target-Keeps fuel ctx = Ensures-bind (Keeps-call inv.internal (h.setup target ctx)) (elim [
    | some e ↦ Ensures-pure _ (λ s p. p)
    | none ↦ deferred_call _ (run_networked-Keeps fuel ctx)
  ])

module _ {W : Type 0} (h : Host W) (sc : Scenario) {I : State W → Type 0} (inv : IsInvariant h sc I)
    (policy : FailurePolicy) where
  -- Run keeps such an invariant, whichever way it is left.
  pub run-Keeps : (fuel : ℕ) (ctx : Context W) → Keeps I (run h policy fuel sc ctx)
  unfolding run
  run-Keeps fuel ctx = at_target sc.target
    where
      at_target :
          (o : Option ℕ)
          → Keeps I (elim o [
            | none ↦ pure (some (some (no_target h sc)))
            | some target ↦ call (h.new_rand sc.seed) >>= λ rng.
                run_target h policy sc target fuel (attach_rand h ctx rng)
          ])
      at_target none = Ensures-pure _ (λ s p. p)
      at_target (some target) =
          Ensures-bind (Keeps-call inv.internal (h.new_rand sc.seed))
            λ rng. run_target-Keeps h sc inv policy target fuel (attach_rand h ctx rng)
