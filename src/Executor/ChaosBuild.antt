-- ===== src/Executor/ChaosBuild.antt =====
-- executor.go: buildChaosContext.
use chaoskit.Prelude.{ℕ, Bool, true, false, ◌&&◌, none, some, List, [], ◌∷◌, if◌then◌else◌}
use chaoskit.Prelude.Int.{ℤ, pos, ltb_ℤ}
use chaoskit.Text.{Str}
use chaoskit.Exec.{Exec, pure, Outcome, ◌>>=◌, ◌>>◌}
use chaoskit.Host.{Host, Context, Chaos}
use chaoskit.ChaosContext.{register_provider}
use chaoskit.Metrics.{record_injector_metrics}
use chaoskit.Executor.{State, call}

module _ {W : Type 0} (h : Host W) where
  -- The closures.
  sleep_for : ℤ → Exec W Bool
  sleep_for d = do h.sleep d; pure true

  unfoldable pub delay_closure : ℕ → Context W → Exec W Bool
  unfolding sleep_for
  delay_closure dp ctx = do
    (delay, given) ← h.get_chaos_delay dp ctx
    if given && ltb_ℤ (pos 0) delay then sleep_for delay else pure false

  latency_or_drop : ℕ → Str → ℤ → ℤ × Bool → Exec W Bool
  unfolding sleep_for
  latency_or_drop np host port (latency, given) =
      if given && ltb_ℤ (pos 0) latency then sleep_for latency else h.should_drop np host port

  unfoldable pub network_closure : ℕ → Str → ℤ → Exec W Bool
  unfolding latency_or_drop
  network_closure np host port = do
    applies ← h.should_apply np host port
    if applies
        then (h.network_latency np host port >>= latency_or_drop np host port)
        else pure false

  -- One injector: each capability that it has takes over from the injectors before it.
  unfoldable pub with_injector : Context W → ℕ → Chaos W → Chaos W
  with_injector ctx i c = record {
    delay_func = if h.is_delay_provider i then some (delay_closure i ctx) else c.delay_func;
    error_func = if h.is_error_provider i then some (h.should_return_error i) else c.error_func;
    panic_func = if h.is_panic_provider i then some (h.should_chaos_panic i) else c.panic_func;
    network_func = if h.is_network_provider i then some (network_closure i) else c.network_func;
    cancellation_func = if h.is_cancellation_provider i then some i else c.cancellation_func;
    providers = if h.is_provider i then (register_provider h c i).providers else c.providers;
  }

  unfoldable pub store_metrics : ℕ → ℕ → Exec (State W) (Unit {0})
  unfolding record_injector_metrics
  store_metrics i m s = (
    Outcome.returns tt,
    record s { metrics = record_injector_metrics s.metrics (h.injector_name i) m },
  )

  -- e.metrics.RecordInjectorMetrics(inj.Name(), metrics)
  unfoldable pub collect_metrics : ℕ → Exec (State W) (Unit {0})
  unfolding store_metrics
  collect_metrics i =
      if h.is_metrics_provider i then (call (h.get_metrics i) >>= store_metrics i) else pure tt

  unfoldable pub build_from : Context W → Chaos W → List ℕ → Exec (State W) (Chaos W)
  build_from ctx c [] = pure c
  build_from ctx c (i ∷ is) = do collect_metrics i; build_from ctx (with_injector ctx i c) is

  abbrev pub no_chaos : Chaos W
  no_chaos = record {
    delay_func = none;
    error_func = none;
    panic_func = none;
    network_func = none;
    cancellation_func = none;
    providers = [];
  }

  unfoldable pub build_chaos_context : Context W → List ℕ → Exec (State W) (Chaos W)
  unfolding build_from
  build_chaos_context ctx is = build_from ctx no_chaos is
