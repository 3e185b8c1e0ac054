-- ===== src/Executor/Loop.antt =====
-- executor.go: resetValidators, runRepeated and runForDuration.
use chaoskit.Prelude.{
  ℕ, zero, suc, ◌+◌, Bool, true, false, Option, none, some, List, [], ◌∷◌, ◌++◌, if◌then◌else◌,
}
use chaoskit.Prelude.Int.{ℤ, pos, negsuc}
use chaoskit.Text.{codes, show_nat}
use chaoskit.Errors.{Error, wrapped, is_deadline}
use chaoskit.Exec.{Exec, pure, Outcome, defer, ◌>>=◌, ◌>>◌}
use chaoskit.Host.{Host, Context}
use chaoskit.Scenario.{Scenario}
use chaoskit.Executor.{State, FailurePolicy, fail_fast, call, record_result}
use chaoskit.Executor.Once.{execute_once}

-- fmt.Errorf("execution %d failed: %w", n, err)
abbrev pub execution_failed : ℕ → Error → Error
execution_failed n e = wrapped (codes "execution " ++ show_nat n ++ codes " failed: ") e

-- if firstError == nil { firstError = … }
abbrev pub first_of_errors : Option Error → ℕ → Error → Option Error
first_of_errors none n e = some (execution_failed n e)
first_of_errors (some f) n e = some f

abbrev pub stops_on_failure : FailurePolicy → Bool
stops_on_failure fail_fast = true
stops_on_failure _ = false

-- What an iteration tells the loop: go on with this first error, or return.
pub data Next : Type 0 where
  go_on : Option Error → Next
  return_with : Option Error → Next

abbrev pub after_failure : FailurePolicy → Option Error → Next
after_failure policy first = if stops_on_failure policy then return_with first else go_on first

abbrev pub after_result : FailurePolicy → ℕ → Option Error → Option Error → Next
after_result policy n first none = go_on first
after_result policy n first (some e) = after_failure policy (first_of_errors first n e)

module _ {W : Type 0} (h : Host W) where
  unfoldable pub reset_validators : List ℕ → Exec W (Unit {0})
  reset_validators [] = pure tt
  reset_validators (v ∷ vs) = do
    if h.is_resettable v then h.reset v else pure tt
    reset_validators vs

  -- select { case <-ctx.Done(): … default: }
  unfoldable pub poll : Context W → Exec (State W) (Option Error)
  poll ctx s = (Outcome.returns (h.ctx_err ctx.handle s.world), s)

  module _ (policy : FailurePolicy) (sc : Scenario) (target : ℕ) where
    -- The body of either loop, behind its poll; `n` counts from 1.
    unfoldable pub iterate : Context W → ℕ → Option Error → Exec (State W) Next
    unfolding record_result
    iterate ctx n first = do
      call (reset_validators sc.validators)
      result ← execute_once h sc target ctx
      record_result result
      pure (after_result policy n first result.error)

    -- `left` more iterations, the next of which is number `n`.
    unfoldable pub run_repeated_from :
        Context W → ℕ → ℕ → Option Error → Exec (State W) (Option Error)
    unfolding poll
    run_repeated_from ctx zero n first = pure first
    run_repeated_from ctx (suc left) n first = do
      done ← poll ctx
      elim done [
        | some e ↦ pure (some e)
        | none ↦ iterate ctx n first >>= λ next. elim next [
          | return_with e ↦ pure e
          | go_on first' ↦ run_repeated_from ctx left (n + 1) first'
        ]
      ]

    unfoldable pub rounds : ℤ → ℕ
    rounds (pos n) = n
    rounds (negsuc n) = 0

    unfoldable pub run_repeated : Context W → Exec (State W) (Option Error)
    unfolding rounds
    run_repeated ctx = run_repeated_from ctx (rounds sc.repeat) 1 none

    -- The loop has no bound of its own: `none` is a run cut off when the fuel is used up.
    unfoldable pub run_until_from :
        Context W → ℕ → ℕ → Option Error → Exec (State W) (Option (Option Error))
    unfolding poll
    run_until_from ctx zero n first = pure none
    run_until_from ctx (suc fuel) n first = do
      done ← poll ctx
      elim done [
        | some e ↦ pure (some (if is_deadline e then first else some e))
        | none ↦ iterate ctx n first >>= λ next. elim next [
          | return_with e ↦ pure (some e)
          | go_on first' ↦ run_until_from ctx fuel (n + 1) first'
        ]
      ]

    unfoldable pub run_for_duration : ℕ → Context W → Exec (State W) (Option (Option Error))
    run_for_duration fuel ctx = do
      handle ← call (h.with_timeout ctx.handle sc.duration)
      defer (call (h.cancel handle)) (run_until_from (record ctx { handle = handle }) fuel 1 none)
