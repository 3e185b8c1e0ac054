-- ===== src/Injectors/Contextual.antt =====
-- injectors/network_contextual.go: ContextualNetworkInjector, whose proxy stands while a scenario
-- runs, and which answers when user code asks for network chaos. `order` is the order in which Go
-- walks the map of rules, `draw` is rng.Float64() and `intn` is rng.Intn(n) for a positive n.
pub mod Hosts
pub mod Jitter
pub mod Teardown
use chaoskit.Prelude.{
  ℕ, ◌+◌, ◌-◌, ◌*◌, ◌^◌, ◌%◌, ◌==◌, Bool, true, false, ◌&&◌, ◌||◌, not, Option, none, some, List,
  [], ◌∷◌, ◌++◌, ltb, leb, length, take, drop, if◌then◌else◌,
}
use chaoskit.Prelude.Int.{ℤ, pos, add64, bits, of_bits, quot, ltb_ℤ, minus, pos_part}
use chaoskit.Text.{Str, codes, str_eq}
use chaoskit.Dict.{Dict, put}
use chaoskit.Errors.{Error, wrapped}
use chaoskit.Platform.{Platform}
use chaoskit.Exec.{Exec, Outcome, panics, pure, ◌>>=◌}
use chaoskit.Host.{Host, Context}
use chaoskit.ChaosContext.{get_rand}
use chaoskit.Injectors.Chance.{already_stopped}
use chaoskit.Injectors.Client.{Answer, given, failed, Call, done, Toxiproxy}
use chaoskit.Injectors.Proxies.{
  ProxyConfig, ToxiproxyManager, new_manager, create_proxy, delete_proxy, get_proxy,
}

pub record NetworkRule (Float : Type 0) : Type 0 where
  pub latency : ℤ
  pub jitter : ℤ
  pub drop_probability : Float
  pub apply_rate : Float

pub record ContextualNetworkInjector (Float : Type 0) : Type 0 where
  pub name : Str
  pub manager : ToxiproxyManager
  pub proxy_config : ProxyConfig
  pub apply_rate : Float
  pub host_patterns : Dict (NetworkRule Float)
  pub stopped : Bool
  pub rng : Option ℕ

suffix_match : Str → Str → Bool
suffix_match suffix host =
    leb (length suffix) (length host) && str_eq (drop (length host - length suffix) host) suffix

prefix_match : Str → Str → Bool
prefix_match prefix host =
    leb (length prefix) (length host) && str_eq (take (length prefix) host) prefix

-- matchesHost: `pattern[0] == '*' && pattern[1] == '.'` compares the first two bytes, and
-- `pattern[len(pattern)-2:] == ".*"` the last two.
unfoldable pub matches_host : Str → Str → Bool
unfolding suffix_match prefix_match
matches_host pattern host =
    if str_eq pattern (codes "*") || str_eq pattern host
    then true
    else if ltb 2 (length pattern) && str_eq (take 2 pattern) (codes "*.")
    then suffix_match (drop 2 pattern) host
    else if ltb 2 (length pattern) && str_eq (drop (length pattern - 2) pattern) (codes ".*")
    then prefix_match (take (length pattern - 2) pattern) host
    else false

module _ {Float : Type 0} where
  unfoldable pub add_host_rule :
      Str → NetworkRule Float → ContextualNetworkInjector Float → ContextualNetworkInjector Float
  add_host_rule pattern rule c = record c { host_patterns = put pattern rule c.host_patterns }

  unfoldable pub stop_contextual : ContextualNetworkInjector Float → ContextualNetworkInjector Float
  stop_contextual c = record c { stopped = true }

  -- The first rule of the walk that matches the host.
  unfoldable pub first_match : Str → List (Str × NetworkRule Float) → Option (NetworkRule Float)
  first_match host [] = none
  first_match host ((pattern, rule) ∷ rest) =
      if matches_host pattern host then some rule else first_match host rest

  -- The same for GetNetworkLatency, which passes over the rules without a latency.
  unfoldable pub first_delaying : Str → List (Str × NetworkRule Float) → Option (NetworkRule Float)
  first_delaying host [] = none
  first_delaying host ((pattern, rule) ∷ rest) =
      if matches_host pattern host && ltb_ℤ (pos 0) rule.latency
      then some rule
      else first_delaying host rest

module _ (p : Platform) where
  open p use {Float, float_lt, literal}

  clamp : Float → Float
  clamp rate =
      if float_lt rate (literal 0 0)
      then literal 0 0
      else if float_lt (literal 1 0) rate
      then literal 1 0
      else rate

  unfoldable pub new_contextual : ProxyConfig → Float → ContextualNetworkInjector Float
  unfolding clamp
  new_contextual config rate = record {
    name = codes "contextual_network_" ++ config.name;
    manager = new_manager;
    proxy_config = config;
    apply_rate = clamp rate;
    host_patterns = [];
    stopped = false;
    rng = none;
  }

module _ {Float W : Type 0} (c : Toxiproxy Float W) where
  -- The answer of CreateProxy: where it fails, the manager may still know the proxy.
  set_up_with : Option Error → Answer ℕ → Option Error
  set_up_with none a = none
  set_up_with (some e) (given proxy) = none
  set_up_with (some e) (failed x) = some (wrapped (codes "failed to setup network proxy: ") e)

  set_up : ContextualNetworkInjector Float → Call W (Option Error × ContextualNetworkInjector Float)
  unfolding set_up_with
  set_up i w =
      let x = create_proxy c i.proxy_config i.manager w in
      (
        (set_up_with x.0.0 (get_proxy c i.proxy_config.name x.0.1), record i { manager = x.0.1 }),
        x.1,
      )

  unfoldable pub setup_network :
      ContextualNetworkInjector Float → Call W (Option Error × ContextualNetworkInjector Float)
  unfolding set_up
  setup_network i = if i.stopped then done (some already_stopped, i) else set_up i

  torn_down : Option Error → Option Error
  torn_down none = none
  torn_down (some e) = some (wrapped (codes "failed to teardown network proxy: ") e)

  tear_down :
      ContextualNetworkInjector Float → Call W (Option Error × ContextualNetworkInjector Float)
  unfolding torn_down
  tear_down i w =
      let x = delete_proxy c i.proxy_config.name i.manager w in
      ((torn_down x.0.0, record i { manager = x.0.1 }), x.1)

  unfoldable pub teardown_network :
      ContextualNetworkInjector Float → Call W (Option Error × ContextualNetworkInjector Float)
  unfolding tear_down
  teardown_network i = if i.stopped then done (none, i) else tear_down i

-- time.Duration(k) * time.Millisecond, on int64
unfoldable pub in_nanoseconds : ℤ → ℤ
in_nanoseconds k = of_bits ((bits k * 1000000) % 2 ^ 64)

module _ (p : Platform) {W : Type 0} (h : Host W) where
  open p use {Float, float_lt, float_le}

  unfoldable pub inject_contextual :
      ContextualNetworkInjector Float
      → Context W
      → Exec W (Option Error × ContextualNetworkInjector Float)
  inject_contextual i ctx =
      if i.stopped
      then pure (some already_stopped, i)
      else (get_rand h ctx >>= λ rng. pure (none, record i { rng = some rng }))

  -- The injector's generator; where it is missing, one with a drawn seed.
  generator : Option ℕ → Exec W ℕ
  generator none = h.new_rand none
  generator (some rng) = pure rng

  module _ (order : Dict (NetworkRule Float) → List (Str × NetworkRule Float))
      (draw : ℕ → Exec W Float) where
    below_rate : ℕ → Option (NetworkRule Float) → Exec W Bool
    below_rate rng none = pure true
    below_rate rng (some rule) = draw rng >>= λ x. pure (float_lt x rule.apply_rate)

    unfoldable pub should_apply_network_chaos :
        ContextualNetworkInjector Float → Str → ℤ → Exec W Bool
    unfolding generator below_rate
    should_apply_network_chaos i host port =
        if i.stopped
        then pure false
        else (generator i.rng >>= λ rng. draw rng >>= λ x.
            if float_le i.apply_rate x
            then pure false
            else below_rate rng (first_match host (order i.host_patterns)))

    drops : ℕ → Option (NetworkRule Float) → Exec W Bool
    drops rng none = pure false
    drops rng (some rule) = draw rng >>= λ x. pure (float_lt x rule.drop_probability)

    unfoldable pub should_drop_connection : ContextualNetworkInjector Float → Str → ℤ → Exec W Bool
    unfolding generator drops
    should_drop_connection i host port =
        if i.stopped
        then pure false
        else (generator i.rng >>= λ rng. drops rng (first_match host (order i.host_patterns)))

  module _ (order : Dict (NetworkRule Float) → List (Str × NetworkRule Float))
      (intn : ℕ → ℕ → Exec W ℕ) where
    -- rng.Intn(n) panics unless n is positive.
    intn_of : ℕ → ℕ → Exec W ℕ
    intn_of rng n =
        if n == 0 then (λ w. (panics (codes "invalid argument to Intn"), w)) else intn rng n

    jittered : Option ℕ → ℤ → ℤ → Exec W (ℤ × Bool)
    unfolding intn_of generator in_nanoseconds
    jittered rng latency jitter =
        let ms = pos_part (quot jitter 1000000) in
        generator rng >>= λ g. intn_of g (ms * 2) >>= λ k.
        pure (add64 latency (in_nanoseconds (minus (pos k) (pos ms))), true)

    delayed : Option ℕ → ℤ → ℤ → Exec W (ℤ × Bool)
    unfolding jittered
    delayed rng latency jitter =
        if ltb_ℤ (pos 0) jitter then jittered rng latency jitter else pure (latency, true)

    latency_of : Option ℕ → Option (NetworkRule Float) → Exec W (ℤ × Bool)
    latency_of rng none = pure (pos 0, false)
    latency_of rng (some rule) = delayed rng rule.latency rule.jitter

    unfoldable pub get_network_latency :
        ContextualNetworkInjector Float → Str → ℤ → Exec W (ℤ × Bool)
    unfolding latency_of delayed
    get_network_latency i host port =
        if i.stopped
        then pure (pos 0, false)
        else latency_of i.rng (first_delaying host (order i.host_patterns))
