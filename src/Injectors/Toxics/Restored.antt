-- ===== src/Injectors/Toxics/Restored.antt =====
-- The four injectors of injectors/network.go behind the interface Injector, and what is left on
-- the server when one is stopped.
use chaoskit.Prelude.{ℕ, ◌≡◌, refl, Bool, false, Option, none, List, [], ◌∷◌}
use chaoskit.Text.{Str}
use chaoskit.Errors.{Error}
use chaoskit.Platform.{Platform}
use chaoskit.Injectors.Client.{Toxiproxy, ToxicLaws, ◌>>=◌, Call, done}
use chaoskit.Injectors.Toxics.{
  Toxic, ToxiproxyLatencyInjector, ToxiproxyBandwidthInjector, ToxiproxyTimeoutInjector,
  ToxiproxySlicerInjector, inject_latency, stop_latency, inject_bandwidth, stop_bandwidth,
  inject_timeout, stop_timeout, inject_slicer, stop_slicer,
}
use chaoskit.Injectors.Toxics.Session.{Session, Table, inject_toxic-Session, stop_toxic-Stopped}

pub data ToxicInjector : Type 0 where
  latency : ToxiproxyLatencyInjector → ToxicInjector
  bandwidth : ToxiproxyBandwidthInjector → ToxicInjector
  timeout : ToxiproxyTimeoutInjector → ToxicInjector
  slicer : ToxiproxySlicerInjector → ToxicInjector

abbrev pub toxic_of : ToxicInjector → Toxic
toxic_of (latency t) = t.toxic
toxic_of (bandwidth t) = t.toxic
toxic_of (timeout t) = t.toxic
toxic_of (slicer t) = t.toxic

pub data ToxicCall : Type 0 where
  inject stop : ToxicCall

module _ (p : Platform) {W : Type 0} (c : Toxiproxy p.Float W) where
  -- The call of a method through the interface.
  unfoldable pub inject_any : ToxicInjector → Call W (Option Error × ToxicInjector)
  inject_any (latency t) = inject_latency p c t >>= λ (e, x). done (e, latency x)
  inject_any (bandwidth t) = inject_bandwidth p c t >>= λ (e, x). done (e, bandwidth x)
  inject_any (timeout t) = inject_timeout p c t >>= λ (e, x). done (e, timeout x)
  inject_any (slicer t) = inject_slicer p c t >>= λ (e, x). done (e, slicer x)

  unfoldable pub stop_any : ToxicInjector → Call W (Option Error × ToxicInjector)
  stop_any (latency t) = stop_latency p c t >>= λ (e, x). done (e, latency x)
  stop_any (bandwidth t) = stop_bandwidth p c t >>= λ (e, x). done (e, bandwidth x)
  stop_any (timeout t) = stop_timeout p c t >>= λ (e, x). done (e, timeout x)
  stop_any (slicer t) = stop_slicer p c t >>= λ (e, x). done (e, slicer x)

  -- A sequence of calls, whatever they answer.
  unfoldable pub run_calls : List ToxicCall → ToxicInjector → W → ToxicInjector × W
  run_calls [] x w = (x, w)
  run_calls (inject ∷ cs) x w = let (r, w') = inject_any x w in run_calls cs r.1 w'
  run_calls (stop ∷ cs) x w = let (r, w') = stop_any x w in run_calls cs r.1 w'

module _ (p : Platform) {W : Type 0} (c : Toxiproxy p.Float W) (laws : ToxicLaws c)
    (before : ℕ → Str → Bool) (r : ℕ) (n : Str) (free : before r n ≡ false) where
  open laws use {has_toxic, ref_of}

  abbrev Kept : ToxicInjector → W → Type 0
  Kept x w = Session p c laws before r n (toxic_of x) w

  inject_any-Kept :
      (x : ToxicInjector) (w : W) → Kept x w → Kept (inject_any p c x w).0.1 (inject_any p c x w).1
  unfolding inject_any inject_latency inject_bandwidth inject_timeout inject_slicer
  inject_any-Kept (latency t) w s = inject_toxic-Session p c laws before r n _ _ t.toxic w s
  inject_any-Kept (bandwidth t) w s = inject_toxic-Session p c laws before r n _ _ t.toxic w s
  inject_any-Kept (timeout t) w s = inject_toxic-Session p c laws before r n _ _ t.toxic w s
  inject_any-Kept (slicer t) w s = inject_toxic-Session p c laws before r n _ _ t.toxic w s

  stop_any-Kept :
      (x : ToxicInjector) (w : W)
      → Kept x w
      → Kept (stop_any p c x w).0.1 (stop_any p c x w).1
        × ((stop_any p c x w).0.0 ≡ none → has_toxic (stop_any p c x w).1 ≡ before)
  unfolding stop_any stop_latency stop_bandwidth stop_timeout stop_slicer
  stop_any-Kept (latency t) w s = stop_toxic-Stopped p c laws before r n t.toxic w free s
  stop_any-Kept (bandwidth t) w s = stop_toxic-Stopped p c laws before r n t.toxic w free s
  stop_any-Kept (timeout t) w s = stop_toxic-Stopped p c laws before r n t.toxic w free s
  stop_any-Kept (slicer t) w s = stop_toxic-Stopped p c laws before r n t.toxic w free s

  run_calls-Kept :
      (cs : List ToxicCall) (x : ToxicInjector) (w : W)
      → Kept x w
      → Kept (run_calls p c cs x w).0 (run_calls p c cs x w).1
  unfolding run_calls
  run_calls-Kept [] x w s = s
  run_calls-Kept (inject ∷ cs) x w s = run_calls-Kept cs _ _ (inject_any-Kept x w s)
  run_calls-Kept (stop ∷ cs) x w s = run_calls-Kept cs _ _ (stop_any-Kept x w s).0

module _ (p : Platform) {W : Type 0} (c : Toxiproxy p.Float W) (laws : ToxicLaws c) where
  open laws use {has_toxic, ref_of}

  -- Where nothing else changes the server, and its proxy has no toxic of the injector's toxic name
  -- at the start: after any sequence of Inject and Stop calls on a new Toxiproxy injector of any of
  -- the four kinds, whatever they answer, a Stop that answers no error leaves the toxics of all
  -- proxies as they were at the start.
  pub stop_any-restores :
      (x : ToxicInjector) (w : W) (cs : List ToxicCall)
      → (toxic_of x).proxy ≡ none
      → has_toxic w (ref_of (toxic_of x).proxy_name) (toxic_of x).toxic_name ≡ false
      → (stop_any p c (run_calls p c cs x w).0 (run_calls p c cs x w).1).0.0 ≡ none
      → has_toxic (stop_any p c (run_calls p c cs x w).0 (run_calls p c cs x w).1).1 ≡ has_toxic w
  stop_any-restores x w cs new free quiet =
      let start : Session p c laws (has_toxic w) (ref_of (toxic_of x).proxy_name)
          (toxic_of x).toxic_name (toxic_of x) w =
        record {
          toxic_named = refl;
          proxy_named = refl;
          proxy_is = λ q e. cc;
          table = Table.without refl;
        } in
      (stop_any-Kept p c laws (has_toxic w) _ _ free _ _
          (run_calls-Kept p c laws (has_toxic w) _ _ free cs x w start)).1
        quiet
