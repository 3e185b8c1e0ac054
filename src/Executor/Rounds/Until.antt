-- ===== src/Executor/Rounds/Until.antt =====
-- runForDuration: rounds until the deadline (executor.go).
use chaoskit.Prelude.{
  ℕ, zero, suc, ◌+◌, ◌≡◌, refl, sym, ap, ◌∙◌, ◌⊎◌, inl, inr, true, false, Option, none, some, List,
  [], ◌∷◌, ◌++◌, length, append_assoc, append-nil, Bool-cases, if◌then◌else◌,
}
use chaoskit.Errors.{Error, is_deadline}
use chaoskit.Exec.Ensures.{Ensures, Leaves, Ensures-pure, Ensures-bind, Ensures-weaken, Anything}
use chaoskit.Host.{Host, Context}
use chaoskit.Execution.{ExecutionResult}
use chaoskit.Scenario.{Scenario}
use chaoskit.Executor.{State, FailurePolicy}
use chaoskit.Executor.Loop.{stops_on_failure, go_on, return_with, poll, run_until_from}
use chaoskit.Executor.Rounds.{
  first_failure, earlier, earlier-none, Holds, iterate-Iterated, Stopped, WentOn, went_on,
  failures_after, still_clean, ended_now, Stopped-later,
}

module _ {W : Type 0} (h : Host W) (policy : FailurePolicy) (sc : Scenario) (target : ℕ) where
  -- The context's deadline had passed when the loop looked at it; under fail-fast nothing has failed
  -- before it.
  pub record Expired (ctx : Context W) (s : State W) (n : ℕ) (first : Option Error)
      (rs : List ExecutionResult) (o : Option (Option Error)) : Type 0 where
    pub done : Error
    pub due : h.ctx_err ctx.handle s.world ≡ some done
    pub deadline : is_deadline done ≡ true
    pub error : o ≡ some (earlier first (first_failure n rs))
    pub clean : stops_on_failure policy ≡ true → first_failure n rs ≡ none

  -- The context was done for another reason when the loop looked at it.
  abbrev pub Aborted : Context W → State W → Option (Option Error) → Type 0
  Aborted ctx s o =
      (d : Error) × (h.ctx_err ctx.handle s.world ≡ some d)
      × (is_deadline d ≡ false)
      × (o ≡ some (some d))

  abbrev pub UntilEnded :
      Context W
      → ℕ
      → ℕ
      → Option Error
      → List ExecutionResult
      → Option (Option Error)
      → State W
      → Type 0
  UntilEnded ctx fuel n first rs o s =
      ((o ≡ none) × (length rs ≡ fuel))
      ⊎ Expired ctx s n first rs o
      ⊎ ((e : Option Error) × (o ≡ some e) × Stopped h policy sc target n first rs e)
      ⊎ Aborted ctx s o

  -- The rounds add these results to the reporter, and end so.
  abbrev pub UntilRounds :
      Context W
      → ℕ
      → ℕ
      → Option Error
      → List ExecutionResult
      → Option (Option Error)
      → State W
      → Type 0
  UntilRounds ctx fuel n first rs o s =
      (new : List ExecutionResult) × (s.reporter.results ≡ rs ++ new)
      × UntilEnded ctx fuel n first new o s

  until_later :
      (ctx : Context W) (fuel n : ℕ) (first f : Option Error) (r : ExecutionResult)
      (rs : List ExecutionResult) (o : Option (Option Error)) (s : State W)
      → WentOn h policy sc target n first f r.error
      → UntilEnded ctx fuel (n + 1) f rs o s
      → UntilEnded ctx (suc fuel) n first (r ∷ rs) o s
  until_later ctx fuel n first f r rs o s w (inl (p, q)) = inl (p, ap suc q)
  until_later ctx fuel n first f r rs o s w (inr (inl m)) = inr (
      inl (record {
        done = m.done;
        due = m.due;
        deadline = m.deadline;
        error = m.error ∙ ap some (failures_after h policy sc target n first f r rs w);
        clean = λ t. still_clean h policy sc target n first f r rs w t (m.clean t);
      }))
  until_later ctx fuel n first f r rs o s w (inr (inr (inl (e, p, m)))) =
      inr (inr (inl (e, p, Stopped-later h policy sc target n first f r rs e w m)))
  until_later ctx fuel n first f r rs o s w (inr (inr (inr m))) = inr (inr (inr m))

  until_done :
      (ctx : Context W) (fuel n : ℕ) (first : Option Error) (d : Error) (s : State W)
      → h.ctx_err ctx.handle s.world ≡ some d
      → UntilEnded ctx fuel n first [] (some (if is_deadline d then first else some d)) s
  until_done ctx fuel n first d s p = elim (Bool-cases (is_deadline d)) [
    | inl q ↦ inr (
        inl (record {
          done = d;
          due = p;
          deadline = q;
          error = rw q (ap some (earlier-none first));
          clean = λ _. refl;
        }))
    | inr q ↦ inr (inr (inr (d, p, q, rw q refl)))
  ]

  run_until_from-Rounds :
      (ctx : Context W) (fuel n : ℕ) (first : Option Error) (rs : List ExecutionResult)
      → Ensures
          (Holds h policy sc target rs)
          (run_until_from h policy sc target ctx fuel n first)
          (UntilRounds ctx fuel n first rs)
          Anything
  unfolding run_until_from poll
  run_until_from-Rounds ctx zero n first rs =
      Ensures-pure none λ s p. ([], p ∙ sym (append-nil rs), inl (refl, refl))
  run_until_from-Rounds ctx (suc fuel) n first rs =
      Ensures-bind {T = λ o s. Holds h policy sc target rs s × (h.ctx_err ctx.handle s.world ≡ o)}
        (record { at = λ s p. (p, refl) })
        (elim [
          | some d ↦
              Ensures-pure _
                λ s p. ([], p.0 ∙ sym (append-nil rs), until_done ctx (suc fuel) n first d s p.1)
          | none ↦
              Ensures-bind
                (Ensures-weaken (iterate-Iterated h policy sc target ctx n first rs) (λ s p. p.0)
                  (λ a s p. p) (λ s p. p))
                (elim [
                  | return_with e ↦ Ensures-pure _ λ s p. (
                    p.0 ∷ [],
                    p.1,
                    inr (
                        inr (inl (e, refl, ended_now h policy sc target n first e _ p.0 refl p.2))),
                  )
                  | go_on f ↦ record {
                    at = λ s p.
                        (Ensures-weaken (run_until_from-Rounds ctx fuel (n + 1) f (rs ++ p.0 ∷ []))
                            (λ s q. q)
                            (λ o s' q. (
                              p.0 ∷ q.0,
                              q.1 ∙ append_assoc rs (p.0 ∷ []) q.0,
                              until_later ctx fuel n first f p.0 q.0 o s'
                                  (went_on h policy sc target n first f _ p.2) q.2,
                            ))
                            (λ s q. tt)).at
                          s p.1;
                  }
                ])
        ])

  -- runForDuration's loop, in any state: it panics, as user code may; or it adds some results to the
  -- reporter's and ends in one of four ways. Its fuel is used up after as many results; or the
  -- context was done by its deadline when the loop looked at it, and the error is the first
  -- failure's, if there is one, of which there is none under fail-fast; or the policy is fail-fast,
  -- the last result is the only failure and its error is returned; or the context was done for
  -- another reason, and its error is returned.
  pub run_until_from-ends :
      (ctx : Context W) (fuel : ℕ) (s : State W)
      → Leaves
          (UntilRounds ctx fuel 1 none s.reporter.results)
          Anything
          (run_until_from h policy sc target ctx fuel 1 none s)
  run_until_from-ends ctx fuel s =
      (run_until_from-Rounds ctx fuel 1 none s.reporter.results).at s refl
