-- ===== src/Executor/Rounds/Repeated.antt =====
-- runRepeated: the rounds of a scenario (executor.go).
use chaoskit.Prelude.{
  ℕ, zero, suc, ◌+◌, ◌≡◌, refl, sym, ◌∙◌, inl, inr, Option, none, some, List, [], ◌∷◌, ◌++◌,
  append_assoc, append-nil,
}
use chaoskit.Errors.{Error}
use chaoskit.Exec.Ensures.{Ensures, Leaves, Ensures-pure, Ensures-bind, Ensures-weaken, Anything}
use chaoskit.Host.{Host, Context}
use chaoskit.Execution.{ExecutionResult}
use chaoskit.Scenario.{Scenario}
use chaoskit.Executor.{State, FailurePolicy}
use chaoskit.Executor.Loop.{go_on, return_with, poll, run_repeated_from, run_repeated, rounds}
use chaoskit.Executor.Rounds.{
  earlier-none, Holds, iterate-Iterated, Ended, Rounds, went_on, ended_now, Ended-later,
}

module _ {W : Type 0} (h : Host W) (policy : FailurePolicy) (sc : Scenario) (target : ℕ) where
  run_repeated_from-Rounds :
      (ctx : Context W) (left n : ℕ) (first : Option Error) (rs : List ExecutionResult)
      → Ensures
          (Holds h policy sc target rs)
          (run_repeated_from h policy sc target ctx left n first)
          (Rounds h policy sc target (Ended h policy sc target ctx left n first) rs)
          Anything
  unfolding run_repeated_from poll
  run_repeated_from-Rounds ctx zero n first rs = Ensures-pure first λ s p. (
    [],
    p ∙ sym (append-nil rs),
    inl (record { rounds = refl; error = earlier-none first; clean = λ _. refl }),
  )
  run_repeated_from-Rounds ctx (suc left) n first rs =
      Ensures-bind {T = λ o s. Holds h policy sc target rs s × (h.ctx_err ctx.handle s.world ≡ o)}
        (record { at = λ s p. (p, refl) })
        (elim [
          | some e ↦ Ensures-pure _ λ s p. ([], p.0 ∙ sym (append-nil rs), inr (inr (e, p.1, refl)))
          | none ↦
              Ensures-bind
                (Ensures-weaken (iterate-Iterated h policy sc target ctx n first rs) (λ s p. p.0)
                  (λ a s p. p) (λ s p. p))
                (elim [
                  | return_with e ↦ Ensures-pure _ λ s p. (
                    p.0 ∷ [],
                    p.1,
                    inr (inl (ended_now h policy sc target n first e _ p.0 refl p.2)),
                  )
                  | go_on f ↦ record {
                    at = λ s p.
                        (Ensures-weaken
                            (run_repeated_from-Rounds ctx left (n + 1) f (rs ++ p.0 ∷ []))
                            (λ s q. q)
                            (λ e s' q. (
                              p.0 ∷ q.0,
                              q.1 ∙ append_assoc rs (p.0 ∷ []) q.0,
                              Ended-later h policy sc target ctx left n first f p.0 q.0 e s'
                                  (went_on h policy sc target n first f _ p.2) q.2,
                            ))
                            (λ s q. tt)).at
                          s p.1;
                  }
                ])
        ])

  -- runRepeated, in any state: it panics, as user code may; or it adds some results to the
  -- reporter's and returns. Either their number is the scenario's `repeat`, the error is the first
  -- failure's, if there is one, and under fail-fast there is none; or the policy is fail-fast, the
  -- last result is the only failure and its error is returned; or the context is done, and its error
  -- is returned.
  pub run_repeated-Rounds :
      (ctx : Context W) (s : State W)
      → Leaves
          (Rounds h policy sc target
            (Ended h policy sc target ctx (rounds h policy sc target sc.repeat) 1 none)
            s.reporter.results)
          Anything
          (run_repeated h policy sc target ctx s)
  unfolding run_repeated
  run_repeated-Rounds ctx s =
      (run_repeated_from-Rounds ctx (rounds h policy sc target sc.repeat) 1 none
          s.reporter.results).at
        s refl
