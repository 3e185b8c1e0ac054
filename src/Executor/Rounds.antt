-- ===== src/Executor/Rounds.antt =====
-- What the loops over executions return, and what they leave in the reporter (executor.go).
pub mod Repeated
pub mod Until
pub mod Returns
use chaoskit.Prelude.{
  ℕ, zero, suc, ◌+◌, ◌≡◌, refl, sym, ap, ◌∙◌, ◌⊎◌, inl, inr, Bool, true, false, Option, none, some,
  List, [], ◌∷◌, ◌++◌, arith, length, append_assoc, append-nil, subst, Bool-cases,
}
use chaoskit.Errors.{Error, is_deadline}
use chaoskit.Exec.{Exec, pure}
use chaoskit.Exec.Ensures.{Ensures, Leaves, Ensures-pure, Ensures-bind, Ensures-weaken, Anything}
use chaoskit.Host.{Host, Context}
use chaoskit.Execution.{ExecutionResult}
use chaoskit.Scenario.{Scenario}
use chaoskit.Executor.{State, FailurePolicy, call, record_result}
use chaoskit.Executor.Invariants.{IsInternal, Keeps-call, execute_once_ensures}
use chaoskit.Executor.Loop.{
  execution_failed, first_of_errors, stops_on_failure, Next, go_on, return_with, after_failure,
  after_result, reset_validators, poll, iterate, run_repeated_from, run_until_from, run_repeated,
  rounds,
}

-- The error of the first failed result, with its number; the results are counted from `n`.
abbrev pub first_failure : ℕ → List ExecutionResult → Option Error
first_failure n [] = none
first_failure n (r ∷ rs) = elim r.error [
  | some e ↦ some (execution_failed n e)
  | none ↦ first_failure (n + 1) rs
]

abbrev pub earlier : Option Error → Option Error → Option Error
earlier (some f) o = some f
earlier none o = o

earlier_assoc : (a b c : Option Error) → earlier (earlier a b) c ≡ earlier a (earlier b c)
earlier_assoc none b c = refl
earlier_assoc (some f) b c = refl

pub earlier-none : (a : Option Error) → a ≡ earlier a none
earlier-none none = refl
earlier-none (some f) = refl

go_on-injective : {a b : Option Error} → go_on a ≡ go_on b → a ≡ b
go_on-injective p = cc

module _ {W : Type 0} (h : Host W) (policy : FailurePolicy) (sc : Scenario) (target : ℕ) where
  abbrev pub Holds : List ExecutionResult → State W → Type 0
  Holds rs s = s.reporter.results ≡ rs

  Holds-IsInternal : (rs : List ExecutionResult) → IsInternal (Holds rs)
  Holds-IsInternal rs = record { any_world = λ s w p. p; any_metrics = λ s name v p. p }

  abbrev pub Iterated : ℕ → Option Error → List ExecutionResult → Next → State W → Type 0
  Iterated n first rs next s =
      (r : ExecutionResult) × (Holds (rs ++ r ∷ []) s)
      × (next ≡ after_result policy n first r.error)

  pub iterate-Iterated :
      (ctx : Context W) (n : ℕ) (first : Option Error) (rs : List ExecutionResult)
      → Ensures (Holds rs) (iterate h policy sc target ctx n first) (Iterated n first rs) Anything
  unfolding iterate record_result
  iterate-Iterated ctx n first rs =
      Ensures-bind
        (Ensures-weaken (Keeps-call (Holds-IsInternal rs) (reset_validators h sc.validators))
          (λ s p. p) (λ a s p. p) (λ s p. tt))
        λ _.
          Ensures-bind
            (Ensures-weaken (execute_once_ensures (Holds-IsInternal rs) h sc target ctx) (λ s p. p)
              (λ a s p. p) (λ s p. tt))
            λ r.
              Ensures-bind {T = λ _. Holds (rs ++ r ∷ [])}
                (record { at = λ s p. ap (λ l. l ++ r ∷ []) p.0 })
                λ _. Ensures-pure _ (λ s p. (r, p, refl))

  -- The loop went through all its rounds, the fail-fast one without a failure.
  pub record Completed (left n : ℕ) (first : Option Error) (rs : List ExecutionResult)
      (e : Option Error) : Type 0 where
    pub rounds : length rs ≡ left
    pub error : e ≡ earlier first (first_failure n rs)
    pub clean : stops_on_failure policy ≡ true → first_failure n rs ≡ none

  -- The loop stopped at its first failure, as the policy says.
  pub record Stopped (n : ℕ) (first : Option Error) (rs : List ExecutionResult) (e : Option Error)
      : Type 0 where
    pub failing : stops_on_failure policy ≡ true
    pub before : List ExecutionResult
    pub last : ExecutionResult
    pub cause : Error
    pub results : rs ≡ before ++ last ∷ []
    pub clean : first_failure n before ≡ none
    pub failed : last.error ≡ some cause
    pub error : e ≡ earlier first (some (execution_failed (n + length before) cause))

  -- The context was done when the loop looked at it.
  abbrev pub Cancelled : Context W → State W → Option Error → Type 0
  Cancelled ctx s e = (d : Error) × (h.ctx_err ctx.handle s.world ≡ some d) × (e ≡ some d)

  abbrev pub Ended :
      Context W → ℕ → ℕ → Option Error → List ExecutionResult → Option Error → State W → Type 0
  Ended ctx left n first rs e s =
      Completed left n first rs e ⊎ Stopped n first rs e ⊎ Cancelled ctx s e

  -- The rounds add these results to the reporter, and end so.
  abbrev pub Rounds :
      (List ExecutionResult → Option Error → State W → Type 0)
      → List ExecutionResult
      → Option Error
      → State W
      → Type 0
  Rounds P rs e s = (new : List ExecutionResult) × (s.reporter.results ≡ rs ++ new) × P new e s

  -- A result after which the loop goes on: a success, or a failure that the policy passes over.
  abbrev pub WentOn : ℕ → Option Error → Option Error → Option Error → Type 0
  WentOn n first f o =
      ((o ≡ none) × (f ≡ first))
      ⊎ ((stops_on_failure policy ≡ false)
          × (cause : Error) × (o ≡ some cause)
          × (f ≡ earlier first (some (execution_failed n cause))))

  first_of_errors-earlier :
      (first : Option Error) (n : ℕ) (e : Error)
      → first_of_errors first n e ≡ earlier first (some (execution_failed n e))
  first_of_errors-earlier none n e = refl
  first_of_errors-earlier (some f) n e = refl

  pub went_on :
      (n : ℕ) (first f o : Option Error)
      → go_on f ≡ after_result policy n first o
      → WentOn n first f o
  went_on n first f none p = inl (refl, go_on-injective p)
  went_on n first f (some e) p = elim (Bool-cases (stops_on_failure policy)) [
    | inl q ↦ absurd (went_nowhere p q)
    | inr q ↦ inr (q, e, refl, passed p q)
  ]
    where
      went_nowhere :
          go_on f ≡ after_result policy n first (some e) → stops_on_failure policy ≡ true → ⊥
      went_nowhere p q = ground arith

      passed :
          go_on f ≡ after_result policy n first (some e)
          → stops_on_failure policy ≡ false
          → f ≡ earlier first (some (execution_failed n e))
      passed p q = ground (arith, first_of_errors-earlier first n e)

  -- The results that follow one after which the loop goes on.
  pub failures_after :
      (n : ℕ) (first f : Option Error) (r : ExecutionResult) (rs : List ExecutionResult)
      → WentOn n first f r.error
      → earlier f (first_failure (n + 1) rs) ≡ earlier first (first_failure n (r ∷ rs))
  failures_after n first f r rs (inl (p, q)) = rw (p, q)
  failures_after n first f r rs (inr (b, cause, p, q)) =
      rw (p, q) (earlier_assoc first (some (execution_failed n cause)) (first_failure (n + 1) rs))

  pub still_clean :
      (n : ℕ) (first f : Option Error) (r : ExecutionResult) (rs : List ExecutionResult)
      → WentOn n first f r.error
      → stops_on_failure policy ≡ true
      → (first_failure (n + 1) rs ≡ none)
      → first_failure n (r ∷ rs) ≡ none
  still_clean n first f r rs (inl (p, q)) t c = rw p c
  still_clean n first f r rs (inr (b, cause, p, q)) t c = cc

  same_first :
      (n : ℕ) (first f o : Option Error)
      → WentOn n first f o
      → stops_on_failure policy ≡ true
      → f ≡ first
  same_first n first f o (inl (p, q)) t = q
  same_first n first f o (inr (b, cause, p, q)) t = cc

  pub Stopped-later :
      (n : ℕ) (first f : Option Error) (r : ExecutionResult) (rs : List ExecutionResult)
      (e : Option Error)
      → WentOn n first f r.error
      → Stopped (n + 1) f rs e
      → Stopped n first (r ∷ rs) e
  Stopped-later n first f r rs e w m = record {
    failing = m.failing;
    before = r ∷ m.before;
    last = m.last;
    cause = m.cause;
    results = ap (λ l. r ∷ l) m.results;
    clean = still_clean n first f r m.before w m.failing m.clean;
    failed = m.failed;
    error =
        m.error
        ∙ ap (λ x. earlier x (some (execution_failed (n + 1 + length m.before) m.cause)))
            (same_first n first f r.error w m.failing)
        ∙ ap (λ k. earlier first (some (execution_failed k m.cause))) (omega arith);
  }

  pub Ended-later :
      (ctx : Context W) (left n : ℕ) (first f : Option Error) (r : ExecutionResult)
      (rs : List ExecutionResult) (e : Option Error) (s : State W)
      → WentOn n first f r.error
      → Ended ctx left (n + 1) f rs e s
      → Ended ctx (suc left) n first (r ∷ rs) e s
  Ended-later ctx left n first f r rs e s w (inl m) = inl (record {
    rounds = ap suc m.rounds;
    error = m.error ∙ failures_after n first f r rs w;
    clean = λ t. still_clean n first f r rs w t (m.clean t);
  })
  Ended-later ctx left n first f r rs e s w (inr (inl m)) =
      inr (inl (Stopped-later n first f r rs e w m))
  Ended-later ctx left n first f r rs e s w (inr (inr m)) = inr (inr m)

  -- A result at which the loop returns.
  pub ended_now :
      (n : ℕ) (first e o : Option Error) (r : ExecutionResult)
      → r.error ≡ o
      → return_with e ≡ after_result policy n first o
      → Stopped n first (r ∷ []) e
  ended_now n first e none r q p = absurd cc
  ended_now n first e (some cause) r q p = record {
    failing = ground arith;
    before = [];
    last = r;
    cause = cause;
    results = refl;
    clean = refl;
    failed = q;
    error =
        returned p
        ∙ first_of_errors-earlier first n cause
        ∙ ap (λ k. earlier first (some (execution_failed k cause))) (omega arith);
  }
    where
      returned :
          return_with e ≡ after_result policy n first (some cause)
          → e ≡ first_of_errors first n cause
      returned p = ground arith
