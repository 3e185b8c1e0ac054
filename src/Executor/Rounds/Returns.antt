-- ===== src/Executor/Rounds/Returns.antt =====
-- How runForDuration comes to an end (executor.go).
use chaoskit.Prelude.{ℕ, zero, suc, ◌+◌, ◌≤◌, ◌≡◌, refl, ◌⊎◌, inl, inr, Option, none, some, arith}
use chaoskit.Prelude.Int.{ℤ, pos}
use chaoskit.Errors.{Error}
use chaoskit.Exec.{defer}
use chaoskit.Exec.Ensures.{
  Ensures, Leaves, Ensures-pure, Ensures-bind, Ensures-weaken, Ensures-defer, Ensures-given,
  Keeps-Anything, Anything,
}
use chaoskit.Host.{Host, Context}
use chaoskit.Scenario.{Scenario}
use chaoskit.Executor.{State, FailurePolicy, call}
use chaoskit.Executor.Lifecycle.{call_ensures}
use chaoskit.Executor.Loop.{go_on, return_with, poll, iterate, run_until_from, run_for_duration}

leb-cases : (a b : ℕ) → (a ≤ b) ⊎ (suc b ≤ a)
leb-cases zero b = inl (omega arith)
leb-cases (suc a) zero = inr (omega arith)
leb-cases (suc a) (suc b) = elim (leb-cases a b) [
  | inl l ↦ inl (omega (arith, l))
  | inr l ↦ inr (omega (arith, l))
]

-- What the code relies on of context.WithTimeout and its timer, in a world with a clock. `Armed
-- handle deadline w`: in the world `w` there is a context `handle` with this deadline. WithTimeout
-- makes one whose deadline is at most the duration away (it is nearer where the parent's is), and
-- the context is done in every world that has it from the deadline on.
pub record Timers {W : Type 0} (h : Host W) (clock : W → ℕ) (Armed : ℕ → ℕ → W → Type 0)
    : Type 0 where
  pub arms :
      (parent d : ℕ)
      → Ensures Anything
          (h.with_timeout parent (pos d))
          (λ handle w. (deadline : ℕ) × (deadline ≤ clock w + d) × Armed handle deadline w)
          Anything
  pub expires :
      (handle deadline : ℕ) (w : W)
      → Armed handle deadline w
      → deadline ≤ clock w
      → (e : Error) × (h.ctx_err handle w ≡ some e)

module _ {W : Type 0} (h : Host W) (policy : FailurePolicy) (sc : Scenario) (target : ℕ)
    (clock : W → ℕ) (Armed : ℕ → ℕ → W → Type 0) where
  -- Every iteration takes time, and leaves the timers alone.
  abbrev pub Advances : Context W → Type 0
  Advances ctx =
      (handle deadline n : ℕ) (first : Option Error) (t : ℕ)
      → Ensures (λ s. (t ≤ clock s.world) × Armed handle deadline s.world)
          (iterate h policy sc target (record ctx { handle = handle }) n first)
          (λ _ s. (suc t ≤ clock s.world) × Armed handle deadline s.world) Anything

  module _ (timers : Timers h clock Armed) (ctx : Context W) (advances : Advances ctx) where
    abbrev timed : ℕ → Context W
    timed handle = record ctx { handle = handle }

    early :
        (handle deadline t : ℕ) (w : W)
        → t ≤ clock w
        → Armed handle deadline w
        → h.ctx_err handle w ≡ none
        → suc t ≤ deadline
    early handle deadline t w p a q = elim (leb-cases deadline (clock w)) [
      | inl l ↦ let (e, d) = timers.expires handle deadline w a l in absurd cc
      | inr l ↦ omega (arith, p, l)
    ]

    run_until_from-returns :
        (handle deadline fuel n : ℕ) (first : Option Error) (t : ℕ)
        → 1 ≤ fuel
        → deadline + 1 ≤ fuel + t
        → Ensures
            (λ s. (t ≤ clock s.world) × Armed handle deadline s.world)
            (run_until_from h policy sc target (timed handle) fuel n first)
            (λ o _. (e : Option Error) × (o ≡ some e))
            Anything
    unfolding run_until_from poll
    run_until_from-returns handle deadline zero n first t a b = absurd omega (arith, a)
    run_until_from-returns handle deadline (suc fuel) n first t a b =
        Ensures-bind
          {T = λ o s.
            ((t ≤ clock s.world) × Armed handle deadline s.world) × (h.ctx_err handle s.world ≡ o)}
          (record { at = λ s p. (p, refl) })
          (elim [
            | some d ↦ Ensures-pure _ λ s p. (_, refl)
            | none ↦ record {
              at = λ s p.
                  let l = early handle deadline t s.world p.0.0 p.0.1 p.1 in
                  (Ensures-bind {Q = λ o _. (e : Option Error) × (o ≡ some e)}
                      (advances handle deadline n first t)
                      (elim [
                        | return_with e ↦ Ensures-pure _ λ s p. (e, refl)
                        | go_on f ↦
                            run_until_from-returns handle deadline fuel (n + 1) f (suc t)
                              (omega (arith, b, l)) (omega (arith, b))
                      ])).at
                    s p.0;
            }
          ])

    abbrev Set : ℕ → ℕ → W → Type 0
    Set d handle w = (deadline : ℕ) × (deadline ≤ clock w + d) × Armed handle deadline w

    armed :
        (d : ℕ) (duration : ℤ)
        → duration ≡ pos d
        → Ensures Anything (h.with_timeout ctx.handle duration) (Set d) Anything
    armed d duration e = rw e (timers.arms ctx.handle d)

    loop_until :
        (handle deadline fuel t : ℕ)
        → 1 ≤ fuel
        → deadline + 1 ≤ fuel + t
        → Ensures
            (λ s. (t ≤ clock s.world) × Armed handle deadline s.world)
            (defer
              (call (h.cancel handle))
              (run_until_from h policy sc target (timed handle) fuel 1 none))
            (λ o _. (e : Option Error) × (o ≡ some e))
            Anything
    loop_until handle deadline fuel t a b =
        Ensures-defer {T = λ o _. (e : Option Error) × (o ≡ some e)} {U = Anything}
          (run_until_from-returns handle deadline fuel 1 none t a b)
          (λ o. Ensures-given λ p.
            Ensures-weaken (Keeps-Anything (call (h.cancel handle))) (λ s p. tt) (λ a s q. p)
              (λ s p. tt))
          (Keeps-Anything (call (h.cancel handle)))

    -- The loop under a timer that has been set.
    timed_loop :
        (handle d fuel : ℕ)
        → d + 1 ≤ fuel
        → Ensures
            (λ (s : State W). Set d handle s.world)
            (defer
              (call (h.cancel handle))
              (run_until_from h policy sc target (timed handle) fuel 1 none))
            (λ o _. (e : Option Error) × (o ≡ some e))
            Anything
    timed_loop handle d fuel b = record {
      at = λ s (deadline, near, a).
          (loop_until handle deadline fuel (clock s.world) (omega (arith, b))
              (omega (arith, b, near))).at
            s (omega arith, a);
    }

    -- Where context.WithTimeout makes a context that is done once the duration is over, if not before,
    -- and every iteration takes time and leaves the timers alone: runForDuration returns, from any
    -- state, unless user code panics. More fuel than there are units of time in the duration is enough.
    pub run_for_duration-returns :
        (d fuel : ℕ) (s : State W)
        → sc.duration ≡ pos d
        → d + 1 ≤ fuel
        → Leaves
            (λ o _. (e : Option Error) × (o ≡ some e))
            Anything
            (run_for_duration h policy sc target fuel ctx s)
    unfolding run_for_duration
    run_for_duration-returns d fuel s lasts b =
        (Ensures-bind (call_ensures (armed d sc.duration lasts))
            (λ handle. timed_loop handle d fuel b)).at
          s tt
