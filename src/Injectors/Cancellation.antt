-- ===== src/Injectors/Cancellation.antt =====
-- injectors/context_cancellation.go: ContextCancellationInjector. A context is a number, and the
-- map of cancel functions is the list of the contexts that it tracks; `live` lists the contexts
-- that are not done. `draw` is rng.Float64().
pub mod Calls
pub mod Settled
use chaoskit.Prelude.{
  ℕ, ◌==◌, Bool, true, false, Option, none, some, List, [], ◌∷◌, ◌++◌, ◌||◌, if◌then◌else◌,
}
use chaoskit.Prelude.Int.{ℤ, pos, add64}
use chaoskit.Text.{Str, codes}
use chaoskit.Errors.{Error}
use chaoskit.Platform.{Platform}
use chaoskit.Exec.{Exec, pure, ◌>>=◌}
use chaoskit.Host.{Host, Context}
use chaoskit.ChaosContext.{get_rand}
use chaoskit.Injectors.Chance.{already_stopped}
use chaoskit.Injectors.Delay.{clamp_probability}

pub record ContextCancellationInjector (Float : Type 0) : Type 0 where
  pub name : Str
  pub probability : Float
  pub stopped : Bool
  pub cancel_count : ℤ
  pub cancellations : List ℕ
  pub rng : Option ℕ

unfoldable pub elem : ℕ → List ℕ → Bool
elem n [] = false
elem n (m ∷ ms) = m == n || elem n ms

unfoldable pub without : ℕ → List ℕ → List ℕ
without n [] = []
without n (m ∷ ms) = let rest = without n ms in if m == n then rest else m ∷ rest

-- The loop of Stop: `if ctx.Err() == nil { cancel() }` for each tracked context.
unfoldable pub cancel_each : List ℕ → List ℕ → List ℕ
unfolding elem without
cancel_each [] live = live
cancel_each (n ∷ ns) live = cancel_each ns (if elem n live then without n live else live)

module _ {Float : Type 0} where
  abbrev pub stopped_now : ContextCancellationInjector Float → ContextCancellationInjector Float
  stopped_now c = record c { cancellations = []; stopped = true }

  -- Stop, with the contexts that are live before and after.
  unfoldable pub stop_cancellations :
      ContextCancellationInjector Float → List ℕ → ContextCancellationInjector Float × List ℕ
  unfolding cancel_each
  stop_cancellations c live =
      if c.stopped then (c, live) else (stopped_now c, cancel_each c.cancellations live)

  -- c.cancellations[childCtx] = cancel
  unfoldable pub track : ℕ → ContextCancellationInjector Float → ContextCancellationInjector Float
  track n c = record c { cancellations = n ∷ c.cancellations }

  -- delete(c.cancellations, childCtx)
  unfoldable pub untrack : ℕ → ContextCancellationInjector Float → ContextCancellationInjector Float
  unfolding without
  untrack n c = record c { cancellations = without n c.cancellations }

  -- atomic.AddInt64(&c.cancelCount, 1), where the draw is below the probability
  unfoldable pub toss : Bool → ContextCancellationInjector Float → ContextCancellationInjector Float
  toss hit c = record c {
    cancel_count = if hit then add64 c.cancel_count (pos 1) else c.cancel_count;
  }

module _ (p : Platform) where
  open p use {Float, float_lt, show_fixed}

  unfoldable pub new_cancellation : Float → ContextCancellationInjector Float
  unfolding clamp_probability
  new_cancellation probability =
      let q = clamp_probability p probability in
      record {
        name = codes "context_cancellation_" ++ show_fixed q;
        probability = q;
        stopped = false;
        cancel_count = pos 0;
        cancellations = [];
        rng = none;
      }

  module _ {W : Type 0} (h : Host W) where
    unfoldable pub inject_cancellations :
        ContextCancellationInjector Float
        → Context W
        → Exec W (Option Error × ContextCancellationInjector Float)
    inject_cancellations c ctx =
        if c.stopped
        then pure (some already_stopped, c)
        else (get_rand h ctx >>= λ rng. pure (none, record c { rng = some rng }))

    generator : Option ℕ → Exec W ℕ
    generator none = h.new_rand none
    generator (some rng) = pure rng

    -- A call that no other one overlaps: the context, whether a goroutine is to cancel it soon, and
    -- the injector. `with_cancel` is context.WithCancel.
    unfoldable pub get_chaos_context :
        (ℕ → Exec W ℕ)
        → (ℕ → Exec W Float)
        → ContextCancellationInjector Float
        → ℕ
        → Exec W ((ℕ × Bool) × ContextCancellationInjector Float)
    unfolding generator track toss
    get_chaos_context with_cancel draw c parent =
        if c.stopped
        then pure ((parent, false), c)
        else (generator c.rng >>= λ g. with_cancel parent >>= λ child. draw g >>= λ x.
            let hit = float_lt x c.probability in pure ((child, hit), toss hit (track child c)))
