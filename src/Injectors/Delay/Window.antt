-- ===== src/Injectors/Delay/Window.antt =====
-- injectors/delay.go: the interval mode of DelayInjector, in which delayLoop opens windows and
-- GetChaosDelay waits for one.
use chaoskit.Prelude.{ℕ, ◌≡◌, refl, ◌∙◌, Bool, true, false, List, [], ◌∷◌, if◌then◌else◌}
use chaoskit.Prelude.Int.{ℤ, pos, ltb_ℤ, add64}
use chaoskit.Platform.{Platform}
use chaoskit.Exec.{Exec, pure, ◌>>=◌}
use chaoskit.Host.{Host}
use chaoskit.Injectors.Delay.{
  DelayInjector, DelayMode, interval_mode, get_probable_delay, calculate_delay,
}

-- What the goroutines do, one critical section at a time, while a call waits: the loop sets the
-- active delay, the loop resets it, another call consumes it, and the goroutine of this call has
-- the lock. What the goroutine of a call does after the time of the call is up is not modelled.
pub data WindowEvent : Type 0 where
  opens : ℤ → WindowEvent
  closes : WindowEvent
  taken : WindowEvent
  turn : WindowEvent

module _ (p : Platform) where
  open p use {Float}

  unfoldable pub open_window : ℤ → DelayInjector Float → DelayInjector Float
  open_window delay d = if ltb_ℤ (pos 0) delay then record d { active_delay = delay } else d

  unfoldable pub close_window : DelayInjector Float → DelayInjector Float
  close_window d = if ltb_ℤ (pos 0) d.active_delay then record d { active_delay = pos 0 } else d

  consumed : DelayInjector Float → DelayInjector Float
  consumed d = record d { active_delay = pos 0; delay_count = add64 d.delay_count (pos 1) }

  taken_away : DelayInjector Float → DelayInjector Float
  unfolding consumed
  taken_away d = if ltb_ℤ (pos 0) d.active_delay then consumed d else d

  -- The events of the others.
  passes : WindowEvent → DelayInjector Float → DelayInjector Float
  unfolding open_window close_window taken_away
  passes (opens delay) d = open_window delay d
  passes closes d = close_window d
  passes taken d = taken_away d
  passes turn d = d

  -- The goroutine has ended without a message: nothing comes before the time is up.
  unheard : List WindowEvent → DelayInjector Float → (ℤ × Bool) × DelayInjector Float
  unfolding passes
  unheard [] d = ((pos 0, false), d)
  unheard (e ∷ es) d = unheard es (passes e d)

  -- The goroutine waits on the condition variable, and looks at the active delay when it has the
  -- lock again. The list ends when the time is up.
  unfoldable pub woken : List WindowEvent → DelayInjector Float → (ℤ × Bool) × DelayInjector Float
  unfolding passes consumed
  woken [] d = ((pos 0, false), d)
  woken (turn ∷ es) d =
      let rest = woken es d in
      if ltb_ℤ (pos 0) d.active_delay then ((d.active_delay, true), consumed d) else rest
  woken (opens delay ∷ es) d = woken es (passes (opens delay) d)
  woken (closes ∷ es) d = woken es (passes closes d)
  woken (taken ∷ es) d = woken es (passes taken d)

  -- Before the goroutine has had the lock for the first time. `for d.activeDelay == 0` is not
  -- entered if a delay is already active: the goroutine ends, and sends nothing.
  unfoldable pub wait_for :
      List WindowEvent → DelayInjector Float → (ℤ × Bool) × DelayInjector Float
  unfolding passes woken unheard
  wait_for [] d = ((pos 0, false), d)
  wait_for (turn ∷ es) d = if ltb_ℤ (pos 0) d.active_delay then unheard es d else woken es d
  wait_for (opens delay ∷ es) d = wait_for es (passes (opens delay) d)
  wait_for (closes ∷ es) d = wait_for es (passes closes d)
  wait_for (taken ∷ es) d = wait_for es (passes taken d)

  -- A delay that is active already is consumed at once.
  unfoldable pub get_interval_delay :
      List WindowEvent → DelayInjector Float → (ℤ × Bool) × DelayInjector Float
  unfolding wait_for consumed
  get_interval_delay es d =
      if ltb_ℤ (pos 0) d.active_delay then ((d.active_delay, true), consumed d) else wait_for es d

  module _ {W : Type 0} (h : Host W) (intn : ℕ → ℕ → Exec W ℕ) (draw : ℕ → Exec W Float) where
    by_mode :
        DelayMode
        → List WindowEvent
        → DelayInjector Float
        → Exec W ((ℤ × Bool) × DelayInjector Float)
    by_mode interval_mode es d = pure (get_interval_delay es d)
    by_mode m es d = get_probable_delay p h intn draw d

    -- `es` is what happens in the interval mode while the call waits.
    unfoldable pub get_chaos_delay :
        List WindowEvent → DelayInjector Float → Exec W ((ℤ × Bool) × DelayInjector Float)
    unfolding by_mode
    get_chaos_delay es d = if d.stopped then pure ((pos 0, false), d) else by_mode d.mode es d

    -- What delayLoop does on a tick, before it sleeps; the reset after the sleep is close_window.
    unfoldable pub tick : DelayInjector Float → Exec W (DelayInjector Float)
    tick d = calculate_delay p h intn d >>= λ delay. pure (open_window delay d)

    probable :
        (m : DelayMode) (es : List WindowEvent) (d : DelayInjector Float)
        → m ≡ DelayMode.probability_mode
        → by_mode m es d ≡ get_probable_delay p h intn draw d
    unfolding by_mode
    probable DelayMode.probability_mode es d e = refl
    probable interval_mode es d e = cc
    probable (DelayMode.other n) es d e = cc

    live :
        (b : Bool) (m n : Exec W ((ℤ × Bool) × DelayInjector Float))
        → b ≡ false
        → (if b then m else n) ≡ n
    live true m n e = cc
    live false m n e = refl

    pub get_chaos_delay-probable :
        (es : List WindowEvent) (d : DelayInjector Float)
        → d.stopped ≡ false
        → d.mode ≡ DelayMode.probability_mode
        → get_chaos_delay es d ≡ get_probable_delay p h intn draw d
    unfolding get_chaos_delay
    get_chaos_delay-probable es d e m = live d.stopped _ _ e ∙ probable d.mode es d m
