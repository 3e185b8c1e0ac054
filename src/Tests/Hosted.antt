-- ===== src/Tests/Hosted.antt =====
-- The contextual network injector: its patterns, its latency and its proxy.
use chaoskit.Prelude.{
  ℕ, ◌≤◌, ◌<◌, ◌≡◌, ◌↔◌, ◌⊎◌, refl, Bool-cases, inl, inr, true, false, none, some, [], ◌∷◌, arith,
}
use chaoskit.Prelude.Int.{pos}
use chaoskit.Text.{codes, str_eq}
use chaoskit.Text.Search.{str_eq_iff}
use chaoskit.Host.{Host}
use chaoskit.Dict.{find}
use chaoskit.Errors.{Error}
use chaoskit.Exec.{Outcome, pure}
use chaoskit.Exec.Ensures.{Returns, DrawsBelow, Leaves}
use chaoskit.Injectors.Contextual.{
  NetworkRule, ContextualNetworkInjector, matches_host, first_delaying, get_network_latency,
  stop_contextual, teardown_network,
}
use chaoskit.Injectors.Contextual.Hosts.{Matches, matches_host-Matches}
use chaoskit.Injectors.Contextual.Jitter.{Around, get_network_latency-Jittered}
use chaoskit.Injectors.Contextual.Teardown.{LifecycleCall, run_lifecycle, teardown-after-stop}
use chaoskit.Injectors.Proxies.Tracking.{Tracks}
use chaoskit.Tests.{thousandths, idle, anywhere}
use chaoskit.Tests.Served.{db, db_laws}

matches_host-Matches_example :
    (matches_host (codes "*.example.com") (codes "badexample.com") ≡ true)
    ↔ Matches (codes "*.example.com") (codes "badexample.com")
matches_host-Matches_example = matches_host-Matches (codes "*.example.com") (codes "badexample.com")

matches_a_longer_name : matches_host (codes "*.example.com") (codes "badexample.com") ≡ true
unfolding matches_host str_eq
matches_a_longer_name = refl

abbrev slow : NetworkRule ℕ
slow = record {
  latency = pos 50000000;
  jitter = pos 3000000;
  drop_probability = 0;
  apply_rate = 1000;
}

-- One rule for all hosts, and the proxy db.
abbrev networked : ContextualNetworkInjector ℕ
networked = record {
  name = codes "contextual_network_db";
  manager = record { proxies = (codes "db", 0) ∷ [] };
  proxy_config = record {
    name = codes "db";
    listen = codes ":1";
    upstream = codes ":2";
    enabled = true;
  };
  apply_rate = 1000;
  host_patterns = (codes "*", slow) ∷ [];
  stopped = false;
  rng = none;
}

abbrev still : Host ℕ
still = idle

seeds : Returns (still.new_rand none)
seeds = record { at = λ w u. tt }

draws : DrawsBelow {S = ℕ} (λ g n. pure 0)
draws g n h = record { at = λ w u. h }

get_network_latency-Jittered_example :
    Leaves {S = ℕ}
      (λ x _.
        (x.1 ≡ true)
        × (((◌≡◌ {A = ℕ} 3000000 0) × (x.0 ≡ pos 50000000))
            ⊎ ((1000000 ≤ 3000000) × Around 50000000 3000000 x.0)))
      (λ _. (0 < 3000000) × (3000000 < 1000000))
      (get_network_latency thousandths still
        (λ m. m)
        (λ g n. pure 0)
        networked
        (codes "web")
        (pos 80)
        0)
unfolding first_delaying matches_host str_eq
get_network_latency-Jittered_example =
    get_network_latency-Jittered thousandths still (λ m. m) (λ g n. pure 0) seeds draws networked
      (codes "web") (pos 80) 0 slow 50000000 3000000 refl refl refl refl (omega arith)

tracked : Tracks db db_laws networked.manager true
unfolding find
tracked n r f = elim (Bool-cases (str_eq (codes "db") n)) [
  | inl e ↦
      let same : some 0 ≡ some r = rw e at f in (ground arith, (str_eq_iff (codes "db") n).0 e)
  | inr e ↦ let missed : none ≡ some r = rw e at f in absurd (cc missed)
]

teardown-after-stop_example :
    (((e : Error) × ((teardown_network db networked true).0.0 ≡ some e))
      ⊎ (db_laws.alive (teardown_network db networked true).1 0 ≡ false))
    × (run_lifecycle thousandths idle db
          (LifecycleCall.inject anywhere ∷ LifecycleCall.teardown ∷ [])
          (stop_contextual networked)
          true
        ≡ (Outcome.returns (stop_contextual networked), true))
    × ((teardown_network db (stop_contextual networked) true).0.0 ≡ none)
    × (db_laws.alive (teardown_network db (stop_contextual networked) true).1 0 ≡ true)
unfolding find str_eq
teardown-after-stop_example =
    teardown-after-stop thousandths idle db db_laws networked true 0
      (LifecycleCall.inject anywhere ∷ LifecycleCall.teardown ∷ []) refl tracked refl
