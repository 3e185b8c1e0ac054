-- ===== src/Injectors/Delay/Bounds.antt =====
-- The delays of the probability mode (injectors/delay.go).
use chaoskit.Prelude.{
  ℕ, ◌+◌, ◌-◌, ◌≤◌, ◌<◌, ◌^◌, ◌≡◌, ◌⊎◌, inl, inr, refl, Bool, true, false, Option, none, some, List,
  arith, if◌then◌else◌,
}
use chaoskit.Prelude.Int.{ℤ, pos, add64, add64_small, sub64, ltb_ℤ}
use chaoskit.Platform.{Platform}
use chaoskit.Exec.{Exec}
use chaoskit.Exec.Ensures.{
  Ensures, Leaves, Returns, DrawsBelow, Ensures-bind, Ensures-pure, Ensures-if,
}
use chaoskit.Host.{Host}
use chaoskit.Injectors.Delay.{
  DelayInjector, probability_mode, generator, int63n, drawn, between, calculate_delay, answered,
  get_probable_delay, counted,
}
use chaoskit.Injectors.Delay.Window.{WindowEvent, get_chaos_delay, get_chaos_delay-probable}

-- min ≤ n < max, or n is min where that is no range.
abbrev pub Drawn : ℕ → ℕ → ℕ → Type 0
Drawn min max n = ((min < max) × (min ≤ n) × (n < max)) ⊎ ((max ≤ min) × (n ≡ min))

sub64_small : (a b : ℕ) → a ≤ b → b < 2 ^ 63 → sub64 (pos b) (pos a) ≡ pos (b - a)
unfolding sub64
sub64_small a b h k = ground arith

module _ (p : Platform) {W : Type 0} (h : Host W) (intn : ℕ → ℕ → Exec W ℕ)
    (seeds : Returns (h.new_rand none)) (draws : DrawsBelow intn) where
  abbrev Any : W → Type 0
  Any w = Unit {0}

  abbrev Never : W → Type 0
  Never w = ⊥

  abbrev IsDrawn : ℕ → ℕ → ℤ → W → Type 0
  IsDrawn a b x w = (n : ℕ) × (x ≡ pos n) × Drawn a b n

  generator-Returns : (o : Option ℕ) → Returns (generator p h o)
  unfolding generator
  generator-Returns none = seeds
  generator-Returns (some g) = Ensures-pure g (λ _ _. tt)

  int63n-below : (r n : ℕ) → 0 < n → Ensures Any (int63n p h intn r (pos n)) (λ k _. k < n) Never
  unfolding int63n
  int63n-below r n some_n =
      Ensures-if (ltb_ℤ (pos 0) (pos n)) (λ e. draws r n some_n) (λ e. absurd (ground arith))

  in_range :
      (a b k : ℕ)
      → a < b
      → b < 2 ^ 63
      → k < b - a
      → (n : ℕ) × (add64 (pos a) (pos k) ≡ pos n) × Drawn a b n
  in_range a b k less wide h =
      (a + k, add64_small a k (omega arith), inl (less, omega arith, omega arith))

  drawn-IsDrawn :
      (g : Option ℕ) (a b : ℕ)
      → a < b
      → b < 2 ^ 63
      → Ensures Any (drawn p h intn g (pos a) (pos b)) (IsDrawn a b) Never
  unfolding drawn
  drawn-IsDrawn g a b less wide = Ensures-bind (generator-Returns g) λ r.
      rw (sub64_small a b (omega arith) wide) (
        Ensures-bind (int63n-below r (b - a) (omega arith))
          λ k. record { at = λ w u. in_range a b k less wide u })

  between-IsDrawn :
      (g : Option ℕ) (a b : ℕ)
      → b < 2 ^ 63
      → Ensures Any (between p h intn g (pos a) (pos b)) (IsDrawn a b) Never
  unfolding between
  between-IsDrawn g a b wide =
      Ensures-if (ltb_ℤ (pos a) (pos b)) (λ e. drawn-IsDrawn g a b (ground arith) wide)
        (λ e. Ensures-pure (pos a) (λ w u. (a, refl, inr (ground arith, refl))))

  module _ (d : DelayInjector p.Float) (a b : ℕ) (from : d.min_delay ≡ pos a)
      (to : d.max_delay ≡ pos b) (wide : b < 2 ^ 63) (running : d.stopped ≡ false) where
    running_delay :
        (m n : Exec W ℤ)
        → Ensures Any n (IsDrawn a b) Never
        → Ensures Any (if d.stopped then m else n) (IsDrawn a b) Never
    running_delay m n q = rw running q

    calculate-IsDrawn : Ensures Any (calculate_delay p h intn d) (IsDrawn a b) Never
    unfolding calculate_delay
    calculate-IsDrawn = running_delay _ _ (rw (from, to) (between-IsDrawn d.rng a b wide))

    -- No delay and nothing counted, or a positive delay in range that is counted.
    abbrev Answer : (ℤ × Bool) × DelayInjector p.Float → Type 0
    Answer x =
        ((x.0.0 ≡ pos 0) × (x.0.1 ≡ false) × (x.1 ≡ d))
        ⊎ ((n : ℕ) × (x.0.0 ≡ pos n)
            × (0 < n)
            × Drawn a b n
            × (x.0.1 ≡ true)
            × (x.1 ≡ record d { delay_count = add64 d.delay_count (pos 1) }))

    module _ (draw : ℕ → Exec W p.Float) (tosses : (g : ℕ) → Returns (draw g)) where
      answered-Answer :
          (x : ℤ) → Ensures (IsDrawn a b x) (answered p h intn draw d x) (λ y _. Answer y) Never
      unfolding answered counted
      answered-Answer x =
          Ensures-if (ltb_ℤ (pos 0) x)
            (λ e. Ensures-pure _ (λ w (n, q, r). inr (n, q, ground arith, r, refl, refl)))
            (λ e. Ensures-pure _ (λ w u. inl (refl, refl, refl)))

      probable-Answer : Ensures Any (get_probable_delay p h intn draw d) (λ y _. Answer y) Never
      unfolding get_probable_delay
      probable-Answer = Ensures-bind (generator-Returns d.rng) λ g. Ensures-bind (tosses g) λ x.
          Ensures-if (p.float_lt x d.probability)
            (λ e. Ensures-bind calculate-IsDrawn answered-Answer)
            (λ e. Ensures-pure _ (λ w u. inl (refl, refl, refl)))

      -- In the probability mode, with a source of random numbers that is sound and does not fail,
      -- and bounds from 0 to below 2 ^ 63: GetChaosDelay of an injector that is not stopped returns.
      -- It answers no delay and leaves the injector as it was, or it answers a positive delay and
      -- counts it; the delay is from minDelay to below maxDelay, or it is minDelay where maxDelay
      -- is not greater.
      pub get_chaos_delay-Drawn :
          (es : List WindowEvent) (w : W)
          → d.mode ≡ probability_mode
          → Leaves
              (λ x _.
                ((x.0.0 ≡ pos 0) × (x.0.1 ≡ false) × (x.1 ≡ d))
                ⊎ ((n : ℕ) × (x.0.0 ≡ pos n)
                    × (0 < n)
                    × Drawn a b n
                    × (x.0.1 ≡ true)
                    × (x.1 ≡ record d { delay_count = add64 d.delay_count (pos 1) })))
              (λ _. ⊥)
              (get_chaos_delay p h intn draw es d w)
      get_chaos_delay-Drawn es w m =
          rw (get_chaos_delay-probable p h intn draw es d running m) (probable-Answer.at w tt)
