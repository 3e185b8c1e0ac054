-- ===== src/Injectors/Contextual/Teardown.antt =====
-- The proxy of a contextual injector when its scenario ends (injectors/network_contextual.go):
-- Executor.Run stops the injectors before it tears the networks down.
use chaoskit.Prelude.{
  ◌≡◌, refl, sym, ◌∙◌, ap, subst, ℕ, true, false, Option, none, some, Option-cases, inl, inr, ◌⊎◌,
  List, [], ◌∷◌, arith,
}
use chaoskit.Text.{Str}
use chaoskit.Dict.{find}
use chaoskit.Errors.{Error}
use chaoskit.Exec.{Exec, returns, pure, ◌>>=◌}
use chaoskit.Platform.{Platform}
use chaoskit.Host.{Host, Context}
use chaoskit.Injectors.Client.{Toxiproxy, ProxyLaws}
use chaoskit.Injectors.Proxies.Promises.{View, Promise, removed, remove, error}
use chaoskit.Injectors.Proxies.Tracking.{Tracks, delete-Kept}
use chaoskit.Injectors.Contextual.{
  ContextualNetworkInjector, setup_network, inject_contextual, stop_contextual, teardown_network,
  tear_down, torn_down,
}

pub data LifecycleCall (W : Type 0) : Type 0 where
  setup : LifecycleCall W
  inject : Context W → LifecycleCall W
  stop : LifecycleCall W
  teardown : LifecycleCall W

some_inj : (s r : ℕ) → some s ≡ some r → s ≡ r
some_inj s r e = cc

module _ (p : Platform) {W : Type 0} (h : Host W) (c : Toxiproxy p.Float W) where
  -- One call, whose answer the executor at most logs.
  unfoldable pub lifecycle :
      LifecycleCall W
      → ContextualNetworkInjector p.Float
      → Exec W (ContextualNetworkInjector p.Float)
  lifecycle setup i w = let x = setup_network c i w in (returns x.0.1, x.1)
  lifecycle (inject ctx) i w = (inject_contextual p h i ctx >>= λ x. pure x.1) w
  lifecycle stop i w = (returns (stop_contextual i), w)
  lifecycle teardown i w = let x = teardown_network c i w in (returns x.0.1, x.1)

  unfoldable pub run_lifecycle :
      List (LifecycleCall W)
      → ContextualNetworkInjector p.Float
      → Exec W (ContextualNetworkInjector p.Float)
  run_lifecycle [] i = pure i
  run_lifecycle (k ∷ ks) i = lifecycle k i >>= run_lifecycle ks

  -- On a stopped injector every call does nothing.
  lifecycle-inert :
      (k : LifecycleCall W) (i : ContextualNetworkInjector p.Float) (w : W)
      → lifecycle k (stop_contextual i) w ≡ (returns (stop_contextual i), w)
  unfolding lifecycle setup_network inject_contextual stop_contextual teardown_network ◌>>=◌
  lifecycle-inert setup i w = refl
  lifecycle-inert (inject ctx) i w = refl
  lifecycle-inert stop i w = refl
  lifecycle-inert teardown i w = refl

  run_lifecycle-inert :
      (ks : List (LifecycleCall W)) (i : ContextualNetworkInjector p.Float) (w : W)
      → run_lifecycle ks (stop_contextual i) w ≡ (returns (stop_contextual i), w)
  unfolding run_lifecycle ◌>>=◌
  run_lifecycle-inert [] i w = refl
  run_lifecycle-inert (k ∷ ks) i w = rw (lifecycle-inert k i w) (run_lifecycle-inert ks i w)

  module _ (laws : ProxyLaws c) where
    open laws use {alive}

    removed-gone :
        (a b : View) (n : Str) (r : ℕ)
        → Promise a b (remove n) (error none)
        → a.owned n ≡ some r
        → b.alive r ≡ false
    removed-gone a b n r (removed m s f o e) g =
        let same : s ≡ r = some_inj s r (sym f ∙ g) in ap (λ k. k r) e ∙ ground arith

    answered :
        (a b : View) (n : Str) (r : ℕ) (o : Option Error)
        → Promise a b (remove n) (error o)
        → torn_down c o ≡ none
        → a.owned n ≡ some r
        → b.alive r ≡ false
    unfolding torn_down
    answered a b n r none m e g = removed-gone a b n r m g
    answered a b n r (some x) m e g = cc

    tear_down-gone :
        (i : ContextualNetworkInjector p.Float) (r : ℕ) (w : W)
        → Tracks c laws i.manager w
        → find i.proxy_config.name i.manager.proxies ≡ some r
        → (tear_down c i w).0.0 ≡ none
        → alive (tear_down c i w).1 r ≡ false
    unfolding tear_down
    tear_down-gone i r w t f q =
        answered _ _ i.proxy_config.name r _
          (delete-Kept c laws i.proxy_config.name i.manager w t).0 q f

    unless_ended :
        (i : ContextualNetworkInjector p.Float) (w : W)
        → i.stopped ≡ false
        → teardown_network c i w ≡ tear_down c i w
    unfolding teardown_network
    unless_ended i w live = rw live refl

    before_stop :
        (i : ContextualNetworkInjector p.Float) (w : W) (r : ℕ)
        → i.stopped ≡ false
        → Tracks c laws i.manager w
        → find i.proxy_config.name i.manager.proxies ≡ some r
        → ((e : Error) × ((teardown_network c i w).0.0 ≡ some e))
          ⊎ (alive (teardown_network c i w).1 r ≡ false)
    before_stop i w r live t f = elim (Option-cases (teardown_network c i w).0.0) [
      | inl q ↦ inr (
          subst (λ x. alive x.1 r ≡ false) (sym (unless_ended i w live))
            (tear_down-gone i r w t f (subst (λ x. x.0.0 ≡ none) (unless_ended i w live) q)))
      | inr e ↦ inl e
    ]

    -- Where the manager holds a living proxy for the injector's name, as after SetupNetwork: before
    -- Stop, a TeardownNetwork that answers no error leaves the proxy dead; but after Stop no
    -- sequence of lifecycle calls, TeardownNetwork included, changes the injector or the server,
    -- TeardownNetwork answers no error, and the proxy is still alive.
    pub teardown-after-stop :
        (i : ContextualNetworkInjector p.Float) (w : W) (r : ℕ) (ks : List (LifecycleCall W))
        → i.stopped ≡ false
        → Tracks c laws i.manager w
        → find i.proxy_config.name i.manager.proxies ≡ some r
        → (((e : Error) × ((teardown_network c i w).0.0 ≡ some e))
            ⊎ (alive (teardown_network c i w).1 r ≡ false))
          × (run_lifecycle ks (stop_contextual i) w ≡ (returns (stop_contextual i), w))
          × ((teardown_network c (stop_contextual i) w).0.0 ≡ none)
          × (alive (teardown_network c (stop_contextual i) w).1 r ≡ true)
    unfolding teardown_network stop_contextual
    teardown-after-stop i w r ks live t f = (
      before_stop i w r live t f,
      run_lifecycle-inert ks i w,
      refl,
      (t i.proxy_config.name r f).0,
    )
