-- ===== src/Executor/Assembly.antt =====
-- Which injector each part of the chaos context comes from (executor.go: buildChaosContext).
use chaoskit.Prelude.{
  ℕ, ◌≡◌, refl, ◌∙◌, Bool, true, false, ◌&&◌, Option, none, some, List, [], ◌∷◌, if◌then◌else◌,
}
use chaoskit.Text.{Str, str_eq}
use chaoskit.Dict
use chaoskit.Exec.Ensures.{
  Ensures, Leaves, Ensures-pure, Ensures-bind, Ensures-weaken, Keeps-Anything, Anything,
}
use chaoskit.Host.{Host, Context, Chaos}
use chaoskit.ChaosContext.{get_provider, register_provider}
use chaoskit.Executor.{State}
use chaoskit.Executor.ChaosBuild.{
  delay_closure, network_closure, with_injector, collect_metrics, build_from, build_chaos_context,
  no_chaos,
}

-- The last injector with the capability `q`.
abbrev pub last_of : (ℕ → Bool) → List ℕ → Option ℕ
last_of q [] = none
last_of q (i ∷ is) = elim (last_of q is) [ some j ↦ some j | none ↦ (if q i then some i else none) ]

-- What that injector gives, or the default.
abbrev pub given_by {ℓ} : {A : Type ℓ} → (ℕ → A) → Option A → Option ℕ → Option A
given_by f d none = d
given_by f d (some i) = some (f i)

given :
    {A : Type 0} (b : Bool) (f : ℕ → A) (i : ℕ) (d : Option A)
    → (if b then some (f i) else d) ≡ given_by f d (if b then some i else none)
given true f i d = refl
given false f i d = refl

later :
    {A : Type 0} (f : ℕ → A) (d e : Option A) (i : ℕ) (q : ℕ → Bool) (l : Option ℕ)
    → e ≡ given_by f d (if q i then some i else none)
    → given_by f e l
      ≡ given_by f d (elim l [ some j ↦ some j | none ↦ (if q i then some i else none) ])
later f d e i q none p = p
later f d e i q (some j) p = refl

module _ {W : Type 0} (h : Host W) (ctx : Context W) where
  abbrev pub provides : Str → ℕ → Bool
  provides name i = h.is_provider i && str_eq (h.provider_name i) name

  -- `c` is `c₀` with what the injectors give to it.
  pub record Assembled (d : Chaos W) (is : List ℕ) (c : Chaos W) : Type 0 where
    pub delay :
        c.delay_func
        ≡ given_by (λ i. delay_closure h i ctx) d.delay_func (last_of h.is_delay_provider is)
    pub error :
        c.error_func
        ≡ given_by (λ i. h.should_return_error i) d.error_func (last_of h.is_error_provider is)
    pub panic :
        c.panic_func
        ≡ given_by (λ i. h.should_chaos_panic i) d.panic_func (last_of h.is_panic_provider is)
    pub network :
        c.network_func
        ≡ given_by (λ i. network_closure h i) d.network_func (last_of h.is_network_provider is)
    pub cancellation :
        c.cancellation_func
        ≡ given_by (λ i. i) d.cancellation_func (last_of h.is_cancellation_provider is)
    pub provider :
        (name : Str)
        → get_provider c name ≡ given_by (λ i. i) (get_provider d name) (last_of (provides name) is)

  taken :
      (b : Bool) (i : ℕ) (n name : Str) (m : Dict.Dict ℕ)
      → Dict.find name (if b then Dict.put n i m else m)
        ≡ given_by (λ i. i) (Dict.find name m) (if b && str_eq n name then some i else none)
  taken true i n name m = Dict.find-put name n i m ∙ given (str_eq n name) (λ i. i) i _
  taken false i n name m = refl

  one_injector : (i : ℕ) (d : Chaos W) → Assembled d (i ∷ []) (with_injector h ctx i d)
  unfolding with_injector get_provider register_provider
  one_injector i d = record {
    delay = given (h.is_delay_provider i) (λ i. delay_closure h i ctx) i d.delay_func;
    error = given (h.is_error_provider i) (λ i. h.should_return_error i) i d.error_func;
    panic = given (h.is_panic_provider i) (λ i. h.should_chaos_panic i) i d.panic_func;
    network = given (h.is_network_provider i) (λ i. network_closure h i) i d.network_func;
    cancellation = given (h.is_cancellation_provider i) (λ i. i) i d.cancellation_func;
    provider = λ name. taken (h.is_provider i) i (h.provider_name i) name d.providers;
  }

  more_injectors :
      (i : ℕ) (is : List ℕ) (d c : Chaos W)
      → Assembled (with_injector h ctx i d) is c
      → Assembled d (i ∷ is) c
  more_injectors i is d c a =
      let b = one_injector i d in
      record {
        delay =
            a.delay
            ∙ later (λ i. delay_closure h i ctx) _ _ i h.is_delay_provider
                (last_of h.is_delay_provider is) b.delay;
        error =
            a.error
            ∙ later (λ i. h.should_return_error i) _ _ i h.is_error_provider
                (last_of h.is_error_provider is) b.error;
        panic =
            a.panic
            ∙ later (λ i. h.should_chaos_panic i) _ _ i h.is_panic_provider
                (last_of h.is_panic_provider is) b.panic;
        network =
            a.network
            ∙ later (λ i. network_closure h i) _ _ i h.is_network_provider
                (last_of h.is_network_provider is) b.network;
        cancellation =
            a.cancellation
            ∙ later (λ i. i) _ _ i h.is_cancellation_provider
                (last_of h.is_cancellation_provider is) b.cancellation;
        provider = λ name.
            a.provider name
            ∙ later (λ i. i) _ _ i (provides name) (last_of (provides name) is) (b.provider name);
      }

  build_from-Assembled :
      (d : Chaos W) (is : List ℕ)
      → Ensures Anything (build_from h ctx d is) (λ c _. Assembled d is c) Anything
  unfolding build_from
  build_from-Assembled d [] = Ensures-pure d (λ s _. record {
    delay = refl;
    error = refl;
    panic = refl;
    network = refl;
    cancellation = refl;
    provider = λ name. refl;
  })
  build_from-Assembled d (i ∷ is) = Ensures-bind (Keeps-Anything (collect_metrics h i)) λ _.
      Ensures-weaken (build_from-Assembled (with_injector h ctx i d) is) (λ s _. tt)
        (λ c s a. more_injectors i is d c a) (λ s _. tt)

  -- In the chaos context of an execution each of the five functions is the one of the last injector
  -- with its capability, and is missing where there is none; under a name the last provider of that
  -- name is found, and nothing where there is none.
  pub build_chaos_context-Assembled :
      (is : List ℕ) (s : State W)
      → Leaves (λ c _. Assembled (no_chaos h) is c) Anything (build_chaos_context h ctx is s)
  unfolding build_chaos_context
  build_chaos_context-Assembled is s = (build_from-Assembled (no_chaos h) is).at s tt
