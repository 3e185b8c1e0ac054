-- ===== src/Injectors/Toxics.antt =====
-- injectors/network.go: the four injectors that add a toxic to a proxy. The fields that they have
-- in common are the record Toxic; what differs is what they hand to AddToxic.
pub mod Session
pub mod Restored
use chaoskit.Prelude.{ℕ, Bool, true, false, Option, none, some, [], ◌∷◌, ◌++◌}
use chaoskit.Prelude.Int.{ℤ, quot}
use chaoskit.Text.{Str, codes, show_int}
use chaoskit.Dict.{Dict}
use chaoskit.Errors.{Error, plain, wrapped}
use chaoskit.Platform.{Platform}
use chaoskit.Injectors.Chance.{already_stopped}
use chaoskit.Injectors.Client.{Answer, given, failed, Call, ◌>>=◌, done, Toxiproxy}

pub record Toxic : Type 0 where
  pub name : Str
  pub proxy_name : Str
  pub toxic_name : Str
  pub proxy : Option ℕ
  pub stopped : Bool

-- latency and jitter in milliseconds
pub record ToxiproxyLatencyInjector : Type 0 where
  pub toxic : Toxic
  pub latency : ℤ
  pub jitter : ℤ

-- rate in KB/s
pub record ToxiproxyBandwidthInjector : Type 0 where
  pub toxic : Toxic
  pub rate : ℤ

-- timeout in milliseconds
pub record ToxiproxyTimeoutInjector : Type 0 where
  pub toxic : Toxic
  pub timeout : ℤ

-- sizes in bytes, delay in microseconds
pub record ToxiproxySlicerInjector : Type 0 where
  pub toxic : Toxic
  pub average_size : ℤ
  pub size_variation : ℤ
  pub delay : ℤ

fresh_toxic : Str → Str → Str → Toxic
fresh_toxic name proxy_name toxic_name = record {
  name = name;
  proxy_name = proxy_name;
  toxic_name = toxic_name;
  proxy = none;
  stopped = false;
}

-- d.Milliseconds() and d.Microseconds()
abbrev pub in_milliseconds : ℤ → ℤ
in_milliseconds d = quot d 1000000

abbrev pub in_microseconds : ℤ → ℤ
in_microseconds d = quot d 1000

-- `unix` is time.Now().Unix().
unfoldable pub toxiproxy_latency : ℤ → Str → ℤ → ℤ → ToxiproxyLatencyInjector
unfolding fresh_toxic
toxiproxy_latency unix proxy_name latency jitter = record {
  toxic =
      fresh_toxic
        (codes "toxiproxy_latency_"
          ++ proxy_name
          ++ codes "_"
          ++ show_int (in_milliseconds latency)
          ++ codes "ms")
        proxy_name (codes "latency_" ++ show_int unix);
  latency = in_milliseconds latency;
  jitter = in_milliseconds jitter;
}

unfoldable pub toxiproxy_bandwidth : ℤ → Str → ℤ → ToxiproxyBandwidthInjector
unfolding fresh_toxic
toxiproxy_bandwidth unix proxy_name rate = record {
  toxic =
      fresh_toxic
        (codes "toxiproxy_bandwidth_" ++ proxy_name ++ codes "_" ++ show_int rate ++ codes "kbps")
        proxy_name (codes "bandwidth_" ++ show_int unix);
  rate = rate;
}

unfoldable pub toxiproxy_timeout : ℤ → Str → ℤ → ToxiproxyTimeoutInjector
unfolding fresh_toxic
toxiproxy_timeout unix proxy_name timeout = record {
  toxic =
      fresh_toxic
        (codes "toxiproxy_timeout_"
          ++ proxy_name
          ++ codes "_"
          ++ show_int (in_milliseconds timeout)
          ++ codes "ms")
        proxy_name (codes "timeout_" ++ show_int unix);
  timeout = in_milliseconds timeout;
}

unfoldable pub toxiproxy_slicer : ℤ → Str → ℤ → ℤ → ℤ → ToxiproxySlicerInjector
unfolding fresh_toxic
toxiproxy_slicer unix proxy_name avg_size size_var delay = record {
  toxic =
      fresh_toxic (codes "toxiproxy_slicer_" ++ proxy_name) proxy_name
        (codes "slicer_" ++ show_int unix);
  average_size = avg_size;
  size_variation = size_var;
  delay = in_microseconds delay;
}

module _ (p : Platform) {W : Type 0} (c : Toxiproxy p.Float W) where
  open p use {Float, literal}

  -- The answer of AddToxic, as Inject passes it on. The proxy is kept either way.
  added : Str → ℕ → Toxic → Option Error → Option Error × Toxic
  added kind proxy t none = (none, record t { proxy = some proxy })
  added kind proxy t (some e) = (
    some (wrapped (codes "failed to add " ++ kind ++ codes " toxic: ") e),
    record t { proxy = some proxy },
  )

  add_to : Str → Dict ℤ → Toxic → Answer ℕ → Call W (Option Error × Toxic)
  unfolding added
  add_to kind attributes t (failed e) =
      done (some (wrapped (codes "failed to get proxy " ++ t.proxy_name ++ codes ": ") e), t)
  add_to kind attributes t (given proxy) =
      c.add_toxic proxy t.toxic_name kind (codes "downstream") (literal 1 0) attributes >>= λ o.
      done (added kind proxy t o)

  inject_unless : Bool → Str → Dict ℤ → Toxic → Call W (Option Error × Toxic)
  unfolding add_to
  inject_unless true kind attributes t = done (some already_stopped, t)
  inject_unless false kind attributes t = c.proxy t.proxy_name >>= add_to kind attributes t

  -- The body that the four Inject methods share.
  unfoldable pub inject_toxic : Str → Dict ℤ → Toxic → Call W (Option Error × Toxic)
  unfolding inject_unless
  inject_toxic kind attributes t = inject_unless t.stopped kind attributes t

  removed : Toxic → Option Error → Option Error × Toxic
  removed t none = (none, record t { stopped = true })
  removed t (some e) = (some (wrapped (codes "failed to remove toxic: ") e), t)

  remove_from : Toxic → Option ℕ → Call W (Option Error × Toxic)
  unfolding removed
  remove_from t none = done (none, t)
  remove_from t (some proxy) = c.remove_toxic proxy t.toxic_name >>= λ o. done (removed t o)

  stop_unless : Bool → Toxic → Call W (Option Error × Toxic)
  unfolding remove_from
  stop_unless true t = done (none, t)
  stop_unless false t = remove_from t t.proxy

  -- The body that the four Stop methods share.
  unfoldable pub stop_toxic : Toxic → Call W (Option Error × Toxic)
  unfolding stop_unless
  stop_toxic t = stop_unless t.stopped t

  unfoldable pub inject_latency :
      ToxiproxyLatencyInjector → Call W (Option Error × ToxiproxyLatencyInjector)
  unfolding inject_toxic
  inject_latency t =
      inject_toxic (codes "latency")
        ((codes "latency", t.latency) ∷ (codes "jitter", t.jitter) ∷ []) t.toxic
      >>= λ (e, x). done (e, record t { toxic = x })

  unfoldable pub stop_latency :
      ToxiproxyLatencyInjector → Call W (Option Error × ToxiproxyLatencyInjector)
  unfolding stop_toxic
  stop_latency t = stop_toxic t.toxic >>= λ (e, x). done (e, record t { toxic = x })

  unfoldable pub inject_bandwidth :
      ToxiproxyBandwidthInjector → Call W (Option Error × ToxiproxyBandwidthInjector)
  unfolding inject_toxic
  inject_bandwidth t =
      inject_toxic (codes "bandwidth") ((codes "rate", t.rate) ∷ []) t.toxic >>= λ (e, x).
      done (e, record t { toxic = x })

  unfoldable pub stop_bandwidth :
      ToxiproxyBandwidthInjector → Call W (Option Error × ToxiproxyBandwidthInjector)
  unfolding stop_toxic
  stop_bandwidth t = stop_toxic t.toxic >>= λ (e, x). done (e, record t { toxic = x })

  unfoldable pub inject_timeout :
      ToxiproxyTimeoutInjector → Call W (Option Error × ToxiproxyTimeoutInjector)
  unfolding inject_toxic
  inject_timeout t =
      inject_toxic (codes "timeout") ((codes "timeout", t.timeout) ∷ []) t.toxic >>= λ (e, x).
      done (e, record t { toxic = x })

  unfoldable pub stop_timeout :
      ToxiproxyTimeoutInjector → Call W (Option Error × ToxiproxyTimeoutInjector)
  unfolding stop_toxic
  stop_timeout t = stop_toxic t.toxic >>= λ (e, x). done (e, record t { toxic = x })

  unfoldable pub inject_slicer :
      ToxiproxySlicerInjector → Call W (Option Error × ToxiproxySlicerInjector)
  unfolding inject_toxic
  inject_slicer t =
      inject_toxic (codes "slicer")
        ((codes "average_size", t.average_size)
          ∷ (codes "size_variation", t.size_variation)
          ∷ (codes "delay", t.delay)
          ∷ [])
        t.toxic
      >>= λ (e, x). done (e, record t { toxic = x })

  unfoldable pub stop_slicer :
      ToxiproxySlicerInjector → Call W (Option Error × ToxiproxySlicerInjector)
  unfolding stop_toxic
  stop_slicer t = stop_toxic t.toxic >>= λ (e, x). done (e, record t { toxic = x })
