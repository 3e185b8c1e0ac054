-- ===== src/Injectors/Delay.antt =====
-- injectors/delay.go: DelayInjector. The mutexes are left out: each critical section is one
-- operation. `intn` is rng.Int63n(n) for a positive n, and `draw` is rng.Float64().
pub mod Window
pub mod Bounds
use chaoskit.Prelude.{ℕ, ◌==◌, Bool, true, false, Option, none, some, ◌++◌, if◌then◌else◌}
use chaoskit.Prelude.Int.{ℤ, pos, add64, sub64, ltb_ℤ, pos_part}
use chaoskit.Text.{Str, codes}
use chaoskit.Errors.{Error}
use chaoskit.Platform.{Platform}
use chaoskit.Exec.{Exec, panics, pure, ◌>>=◌}
use chaoskit.Host.{Host, Context}
use chaoskit.ChaosContext.{get_rand}
use chaoskit.Injectors.Chance.{already_stopped}

-- The type is an `int`: `other` stands for a value that no constant names.
pub data DelayMode : Type 0 where
  probability_mode interval_mode : DelayMode
  other : ℤ → DelayMode

unfoldable pub mode_string : DelayMode → Str
mode_string probability_mode = codes "probability"
mode_string interval_mode = codes "interval"
mode_string (other n) = codes "unknown"

-- The stop channel is closed exactly when `stopped` holds.
pub record DelayInjector (Float : Type 0) : Type 0 where
  pub name : Str
  pub min_delay : ℤ
  pub max_delay : ℤ
  pub interval : ℤ
  pub probability : Float
  pub mode : DelayMode
  pub active_delay : ℤ
  pub stopped : Bool
  pub delay_count : ℤ
  pub rng : Option ℕ

module _ (p : Platform) where
  open p use {Float, float_lt, literal, show_duration, show_fixed}

  -- What the three constructors have in common.
  made : Str → ℤ → ℤ → ℤ → Float → DelayMode → DelayInjector Float
  made name min_delay max_delay interval probability mode = record {
    name = name;
    min_delay = min_delay;
    max_delay = max_delay;
    interval = interval;
    probability = probability;
    mode = mode;
    active_delay = pos 0;
    stopped = false;
    delay_count = pos 0;
    rng = none;
  }

  unfoldable pub random_delay : ℤ → ℤ → DelayInjector Float
  unfolding made
  random_delay min max =
      made (codes "delay_injector_prob_" ++ show_duration min ++ codes "_" ++ show_duration max) min
        max (pos 0) (literal 1 0) probability_mode

  unfoldable pub clamp_probability : Float → Float
  clamp_probability q =
      if float_lt q (literal 0 0)
      then literal 0 0
      else if float_lt (literal 1 0) q
      then literal 1 0
      else q

  unfoldable pub random_delay_with_probability : ℤ → ℤ → Float → DelayInjector Float
  unfolding made clamp_probability
  random_delay_with_probability min max probability =
      let q = clamp_probability probability in
      made
        (codes "delay_injector_prob_"
          ++ show_duration min
          ++ codes "_"
          ++ show_duration max
          ++ codes "_"
          ++ show_fixed q)
        min max (pos 0) q probability_mode

  unfoldable pub random_delay_with_interval : ℤ → ℤ → ℤ → DelayInjector Float
  unfolding made
  random_delay_with_interval min max interval =
      made
        (codes "delay_injector_interval_"
          ++ show_duration min
          ++ codes "_"
          ++ show_duration max
          ++ codes "_"
          ++ show_duration interval)
        min max interval (literal 0 0) interval_mode

  unfoldable pub stop_delays : DelayInjector Float → DelayInjector Float
  stop_delays d = record d { stopped = true }

  counted : DelayInjector Float → DelayInjector Float
  counted d = record d { delay_count = add64 d.delay_count (pos 1) }

  module _ {W : Type 0} (h : Host W) where
    -- In the interval mode, Inject also starts the goroutine of delayLoop (Delay/Window).
    unfoldable pub inject_delays :
        DelayInjector Float → Context W → Exec W (Option Error × DelayInjector Float)
    inject_delays d ctx =
        if d.stopped
        then pure (some already_stopped, d)
        else (get_rand h ctx >>= λ rng. pure (none, record d { rng = some rng }))

    generator : Option ℕ → Exec W ℕ
    generator none = h.new_rand none
    generator (some rng) = pure rng

    module _ (intn : ℕ → ℕ → Exec W ℕ) where
      -- rng.Int63n(n) panics unless n is positive.
      int63n : ℕ → ℤ → Exec W ℕ
      int63n rng n =
          if ltb_ℤ (pos 0) n
          then intn rng (pos_part n)
          else (λ w. (panics (codes "invalid argument to Int63n"), w))

      drawn : Option ℕ → ℤ → ℤ → Exec W ℤ
      unfolding int63n generator
      drawn rng min max =
          generator rng >>= λ g. int63n g (sub64 max min) >>= λ k. pure (add64 min (pos k))

      unfoldable pub between : Option ℕ → ℤ → ℤ → Exec W ℤ
      unfolding drawn
      between rng min max = if ltb_ℤ min max then drawn rng min max else pure min

      unfoldable pub calculate_delay : DelayInjector Float → Exec W ℤ
      unfolding between
      calculate_delay d = if d.stopped then pure (pos 0) else between d.rng d.min_delay d.max_delay

      applied : DelayInjector Float → ℤ → Exec W (DelayInjector Float)
      unfolding counted
      applied d delay =
          if ltb_ℤ (pos 0) delay then (h.sleep delay >>= λ _. pure (counted d)) else pure d

      -- AfterStep does nothing.
      unfoldable pub before_step : DelayInjector Float → Exec W (DelayInjector Float)
      unfolding applied
      before_step d = if d.stopped then pure d else (calculate_delay d >>= applied d)

      module _ (draw : ℕ → Exec W Float) where
        answered : DelayInjector Float → ℤ → Exec W ((ℤ × Bool) × DelayInjector Float)
        unfolding counted
        answered d delay =
            if ltb_ℤ (pos 0) delay
            then pure ((delay, true), counted d)
            else pure ((pos 0, false), d)

        -- The part of GetChaosDelay behind the interval mode.
        unfoldable pub get_probable_delay :
            DelayInjector Float → Exec W ((ℤ × Bool) × DelayInjector Float)
        unfolding answered generator
        get_probable_delay d = generator d.rng >>= λ g. draw g >>= λ x.
            if float_lt x d.probability
            then (calculate_delay d >>= answered d)
            else pure ((pos 0, false), d)
