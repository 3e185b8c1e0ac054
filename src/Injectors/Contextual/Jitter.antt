-- ===== src/Injectors/Contextual/Jitter.antt =====
-- The latency of a connection, with its jitter (injectors/network_contextual.go).
use chaoskit.Prelude.{
  ℕ, suc, ◌+◌, ◌-◌, ◌*◌, ◌/◌, ◌^◌, ◌≤◌, ◌<◌, ◌≡◌, refl, Bool, Bool-cases, inl, inr, ltb→lt, true,
  false, Option, none, some, ◌⊎◌, ◌==◌, List, arith, ltb, if◌then◌else◌,
}
use chaoskit.Prelude.Int.{
  ℤ, pos, negsuc, add64, add64_small, add64_negative, minus, ◌≤ℤ◌, ltb_ℤ, quot,
}
use chaoskit.Text.{Str}
use chaoskit.Dict.{Dict}
use chaoskit.Platform.{Platform}
use chaoskit.Exec.{Exec}
use chaoskit.Exec.Ensures.{
  Returns, DrawsBelow, Ensures, Leaves, Ensures-bind, Ensures-pure, Ensures-weaken, Ensures-if,
}
use chaoskit.Host.{Host}
use chaoskit.Injectors.Contextual.{
  NetworkRule, ContextualNetworkInjector, get_network_latency, latency_of, delayed, jittered,
  intn_of, generator, first_delaying, in_nanoseconds,
}

in_nanoseconds_pos : (a : ℕ) → a * 1000000 < 2 ^ 63 → in_nanoseconds (pos a) ≡ pos (a * 1000000)
unfolding in_nanoseconds
in_nanoseconds_pos a h = ground arith

in_nanoseconds_neg :
    (b : ℕ) → suc b * 1000000 < 2 ^ 63 → in_nanoseconds (negsuc b) ≡ negsuc (suc b * 1000000 - 1)
unfolding in_nanoseconds
in_nanoseconds_neg b h = ground arith

-- l - j ≤ d < l + j
abbrev pub Around : ℕ → ℕ → ℤ → Type 0
Around l j d = (minus (pos l) (pos j) ≤ℤ d) × (ltb_ℤ d (pos (l + j)) ≡ true)

minus_ahead : (k m : ℕ) → m ≤ k → minus (pos k) (pos m) ≡ pos (k - m)
minus_ahead k m h = ground arith

minus_behind : (k m : ℕ) → k < m → minus (pos k) (pos m) ≡ negsuc (m - k - 1)
minus_behind k m h = ground arith

ahead-Around : (l j a : ℕ) → a * 1000000 < j → Around l j (pos (l + a * 1000000))
ahead-Around l j a h = ground arith

behind-Around :
    (l j b : ℕ) → suc b * 1000000 ≤ j → Around l j (minus (pos l) (pos (suc b * 1000000)))
behind-Around l j b h = ground arith

pub jitter-Around :
    (l j k : ℕ)
    → l + j < 2 ^ 63
    → k < (j / 1000000) * 2
    → Around l j (add64 (pos l) (in_nanoseconds (minus (pos k) (pos (j / 1000000)))))
jitter-Around l j k wide h = elim (Bool-cases (ltb k (j / 1000000))) [
  | inr e ↦
      let ahead : j / 1000000 ≤ k = ground arith in
      let small : (k - j / 1000000) * 1000000 < j = omega arith in
      rw
        (
          minus_ahead k (j / 1000000) ahead,
          in_nanoseconds_pos (k - j / 1000000) (omega arith),
          add64_small l ((k - j / 1000000) * 1000000) (omega arith),
        )
        (ahead-Around l j (k - j / 1000000) small)
  | inl e ↦
      let behind : k < j / 1000000 = ltb→lt k (j / 1000000) e in
      let b = j / 1000000 - k - 1 in
      let small : suc b * 1000000 ≤ j = omega arith in
      let back : suc (suc b * 1000000 - 1) ≡ suc b * 1000000 = omega arith in
      rw
        (
          minus_behind k (j / 1000000) behind,
          in_nanoseconds_neg b (omega arith),
          add64_negative l (suc b * 1000000 - 1) (omega arith) (omega arith),
          back,
        )
        (behind-Around l j b small)
]

-- A latency as the rule has it, or within its jitter.
abbrev pub Jittered : ℕ → ℕ → ℤ → Type 0
Jittered l j d = ((j ≡ 0) × (d ≡ pos l)) ⊎ ((1000000 ≤ j) × Around l j d)

module _ (p : Platform) {W : Type 0} (h : Host W)
    (order : Dict (NetworkRule p.Float) → List (Str × NetworkRule p.Float))
    (intn : ℕ → ℕ → Exec W ℕ) (seeds : Returns (h.new_rand none)) (draws : DrawsBelow intn) where
  Answers : ℕ → ℕ → Exec W (ℤ × Bool) → Type 0
  Answers l j m =
      Ensures (λ _. Unit {0}) m (λ x _. (x.1 ≡ true) × Jittered l j x.0)
        (λ _. (0 < j) × (j < 1000000))

  generator-Returns : (o : Option ℕ) → Returns (generator p h o)
  unfolding generator
  generator-Returns none = seeds
  generator-Returns (some g) = Ensures-pure g (λ _ _. tt)

  intn_of-below :
      (g j : ℕ)
      → 0 < j
      → Ensures
          (λ _. Unit {0})
          (intn_of p h order intn g ((j / 1000000) * 2))
          (λ k _. (1000000 ≤ j) × (k < (j / 1000000) * 2))
          (λ _. (0 < j) × (j < 1000000))
  unfolding intn_of
  intn_of-below g j pos_j = elim (Bool-cases ((j / 1000000) * 2 == 0)) [
    | inl e ↦ rw e (record { at = λ w _. (pos_j, ground arith) })
    | inr e ↦ rw e (
        Ensures-weaken (draws g ((j / 1000000) * 2) (ground arith)) (λ w u. u)
          (λ k w b. (ground arith, b)) (λ w b. absurd b))
  ]

  jittered-Answers :
      (g : Option ℕ) (l j : ℕ)
      → l + j < 2 ^ 63
      → 0 < j
      → Answers l j (jittered p h order intn g (pos l) (pos j))
  unfolding Answers jittered quot
  jittered-Answers g l j wide some_j =
      Ensures-bind (Ensures-weaken (generator-Returns g) (λ w u. u) (λ a w u. u) (λ w b. absurd b))
        λ a.
          Ensures-bind (intn_of-below a j some_j)
            λ k. record { at = λ w b. (refl, inr (b.0, jitter-Around l j k wide b.1)) }

  delayed-Answers :
      (g : Option ℕ) (l j : ℕ)
      → l + j < 2 ^ 63
      → Answers l j (delayed p h order intn g (pos l) (pos j))
  unfolding delayed Answers
  delayed-Answers g l j wide =
      Ensures-if (ltb_ℤ (pos 0) (pos j)) (λ e. jittered-Answers g l j wide (ground arith))
        (λ e. Ensures-pure _ (λ w u. (refl, inl (ground arith, refl))))

  latency_of-Answers :
      (g : Option ℕ) (rule : NetworkRule p.Float) (l j : ℕ)
      → rule.latency ≡ pos l
      → rule.jitter ≡ pos j
      → l + j < 2 ^ 63
      → Answers l j (latency_of p h order intn g (some rule))
  unfolding latency_of
  latency_of-Answers g rule l j el ej wide = rw (el, ej) (delayed-Answers g l j wide)

  unless_stopped :
      (i : ContextualNetworkInjector p.Float) (l j : ℕ) (m n : Exec W (ℤ × Bool))
      → i.stopped ≡ false
      → Answers l j n
      → Answers l j (if i.stopped then m else n)
  unfolding Answers
  unless_stopped i l j m n live a = rw live a

  -- Where the generator is sound and does not fail, and the first matching rule with a latency has
  -- the latency l and the jitter j (in nanoseconds, neither negative, with a sum below 2 ^ 63): an
  -- injector that is not stopped answers with true, and with l exactly if j is 0, or with a latency
  -- d with l - j ≤ d < l + j; it panics only for a jitter that is positive and below a
  -- millisecond, and for those it does not return.
  pub get_network_latency-Jittered :
      (i : ContextualNetworkInjector p.Float) (host : Str) (port : ℤ) (w : W)
      (rule : NetworkRule p.Float) (l j : ℕ)
      → i.stopped ≡ false
      → first_delaying host (order i.host_patterns) ≡ some rule
      → rule.latency ≡ pos l
      → rule.jitter ≡ pos j
      → l + j < 2 ^ 63
      → Leaves
          (λ x _. (x.1 ≡ true) × (((j ≡ 0) × (x.0 ≡ pos l)) ⊎ ((1000000 ≤ j) × Around l j x.0)))
          (λ _. (0 < j) × (j < 1000000))
          (get_network_latency p h order intn i host port w)
  unfolding get_network_latency Answers
  get_network_latency-Jittered i host port w rule l j live found el ej wide =
      let answers = latency_of-Answers i.rng rule l j el ej wide in
      (unless_stopped i l j _ _ live (rw found answers)).at w tt
