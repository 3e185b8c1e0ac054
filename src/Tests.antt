-- ===== src/Tests.antt =====
-- A small world to run the models in: fixed-point numbers for floats, and a host whose state counts
-- the validations that have been made.
pub mod Reports
pub mod Runs
pub mod Loops
pub mod Checks
pub mod Injected
pub mod Networked
pub mod Patched
pub mod Printed
pub mod Served
pub mod Hosted
pub mod Delayed
pub mod Tested
pub mod Timed
use mathlib.Core.List.Perm
use chaoskit.Text.{contains}
use chaoskit.Text.Search.{IsPlain}
use chaoskit.Reporter.Names.{plain_name}
use chaoskit.Reporter.Names.Keys.{IsUnambiguous}
use chaoskit.Prelude.{Bool, ◌&&◌, not, All, ◌≡◌, refl, arith}
use chaoskit.Prelude.{
  ℕ, ◌+◌, ◌*◌, ◌/◌, ◌^◌, ◌==◌, true, false, none, some, List, [], ◌∷◌, ◌++◌, drop, if◌then◌else◌,
  ltb, leb,
}
use chaoskit.Prelude.Int.{pos}
use chaoskit.Text.{Str, codes}
use chaoskit.Errors.{Error, plain, deadline_exceeded}
use chaoskit.Exec.{pure, Outcome}
use chaoskit.Platform.{Platform}
use chaoskit.Host.{Host, Context}
use chaoskit.Reporter.Orders.{insertion_order, MapOrderLaws}
use chaoskit.Scenario.{Scenario}
use chaoskit.Thresholds.{memory_limit}

-- Thousandths.
abbrev pub thousandths : Platform
thousandths = record {
  Float = ℕ;
  float_lt = ltb;
  float_le = leb;
  float_div = λ a b. (a * 1000) / b;
  float_mul = λ a b. (a * b) / 1000;
  float_of = λ n. n * 1000;
  literal = λ m e. (m * 1000) / (10 ^ e);
  show_fixed = λ f. [];
  show_duration = λ d. [];
  show_instant = λ t. [];
}

pub insertion_laws : MapOrderLaws insertion_order
insertion_laws = record {
  mapping_order-Perm = λ s n. Perm.refl _;
  failure_order-Perm = λ fs. Perm.refl _;
  pattern_order-Perm = λ ps. Perm.refl _;
}

abbrev pub is_plain : Str → Bool
is_plain [] = true
is_plain (c ∷ s) = (ltb 32 c && not (c == 58)) && is_plain s

pub is_plain-IsPlain : (s : Str) → is_plain s ≡ true → All IsPlain s
is_plain-IsPlain [] h = tt
is_plain-IsPlain (c ∷ s) h = (ground arith, is_plain-IsPlain s (ground arith))

pub memory_limit-IsPlain : All IsPlain memory_limit
memory_limit-IsPlain = is_plain-IsPlain memory_limit refl

pub memory_limit-IsUnambiguous : IsUnambiguous memory_limit
unfolding plain_name contains
memory_limit-IsUnambiguous = (
  memory_limit,
  (
    (λ e. cc),
    ((λ e. cc), ((λ e. cc), ((λ e. cc), ((λ e. cc), ((λ e. cc), ((λ e. cc), ((λ e. cc), tt))))))),
  ),
)

-- Nothing happens in this host, in any state.
abbrev pub idle : {W : Type 0} → Host W
idle = record {
  ctx_err = λ c w. none;
  with_timeout = λ c d. pure c;
  cancel = λ c. pure tt;
  now = pure (pos 0);
  since = λ start. pure (pos 0);
  sleep = λ d. pure tt;
  new_rand = λ seed. pure 0;
  setup = λ t c. pure none;
  teardown = λ t c. pure none;
  step_name = λ s. codes "step";
  execute = λ s c t. pure none;
  injector_name = λ i. codes "injector";
  inject = λ i c. pure none;
  stop = λ i c. pure none;
  is_network = λ i. false;
  setup_network = λ i c. pure none;
  teardown_network = λ i c. pure none;
  is_step_injector = λ i. false;
  before_step = λ i c. pure none;
  after_step = λ i c e. pure none;
  is_delay_provider = λ i. false;
  get_chaos_delay = λ i c. pure (pos 0, false);
  is_error_provider = λ i. false;
  should_return_error = λ i. pure none;
  is_panic_provider = λ i. false;
  should_chaos_panic = λ i. pure false;
  is_network_provider = λ i. false;
  should_apply = λ i s p. pure false;
  network_latency = λ i s p. pure (pos 0, false);
  should_drop = λ i s p. pure false;
  is_cancellation_provider = λ i. false;
  get_chaos_context = λ i c. pure (c, 0);
  is_provider = λ i. false;
  provider_name = λ i. codes "provider";
  apply = λ i c. pure false;
  is_metrics_provider = λ i. false;
  get_metrics = λ i. pure 0;
  validator_name = λ v. memory_limit;
  validate = λ v c t. pure none;
  is_resettable = λ v. false;
  reset = λ v. pure tt;
  is_wrapper = λ v. false;
  wrap_step = λ v s. s.execute;
  is_panic_recorder = λ v. false;
  record_panic = λ v c. pure tt;
  is_recursion_recorder = λ v. false;
  record_recursion = λ v d. pure tt;
  is_error_recorder = λ v. false;
  record_error = λ v c. pure tt;
}

-- The second validation fails, step 2 panics, and step s takes s units of time; a validation takes
-- one.
abbrev pub bench : Host ℕ
bench = record idle {
  ctx_err = λ c w. if ltb 5 w then some deadline_exceeded else none;
  now = λ w. (Outcome.returns (pos w), w);
  since = λ start w. (Outcome.returns (pos w), w);
  execute = λ s c t w.
      if s == 2 then (Outcome.panics (codes "boom"), w) else (Outcome.returns none, w + s);
  validate = λ v c t w.
      (Outcome.returns (if w == 1 then some (plain (codes "too much")) else none), w + 1);
}

-- The state is the list of the running injectors; injector 2 fails to start.
abbrev pub ledger : Host (List ℕ)
ledger = record idle {
  inject = λ i c w.
      if i == 2
      then (Outcome.returns (some (plain (codes "no"))), w)
      else (Outcome.returns none, w ++ i ∷ []);
  stop = λ i c w. (Outcome.returns none, drop 1 w);
}

abbrev pub remove : ℕ → List ℕ → List ℕ
remove i [] = []
remove i (j ∷ l) = let rest = remove i l in if j == i then l else j ∷ rest

-- The same for networks; the teardown of injector 3 leaves its network up.
abbrev pub networks : Host (List ℕ)
networks = record idle {
  is_network = λ i. true;
  setup_network = λ i c w.
      if i == 2
      then (Outcome.returns (some (plain (codes "no"))), w)
      else (Outcome.returns none, w ++ i ∷ []);
  teardown_network = λ i c w. (Outcome.returns none, if i == 3 then w else remove i w);
}

abbrev pub anywhere : {W : Type 0} → Context W
anywhere = record { handle = 0; rand = none; recorder = none; chaos = none }

abbrev pub background : Context ℕ
background = anywhere

-- Three executions of one step and one validator.
abbrev pub thrice : Scenario
thrice = record {
  name = codes "thrice";
  target = some 0;
  steps = 0 ∷ [];
  injectors = [];
  scopes = [];
  validators = 0 ∷ [];
  repeat = pos 3;
  duration = pos 0;
  seed = none;
}

-- One step of one unit of time, until the timer goes off.
abbrev pub ticking : Scenario
ticking = record {
  name = codes "ticking";
  target = some 0;
  steps = 1 ∷ [];
  injectors = [];
  scopes = [];
  validators = [];
  repeat = pos 0;
  duration = pos 6;
  seed = none;
}

-- Two injectors around two executions.
abbrev pub injected : Scenario
injected = record {
  name = codes "injected";
  target = some 0;
  steps = 1 ∷ [];
  injectors = 1 ∷ 3 ∷ [];
  scopes = [];
  validators = [];
  repeat = pos 2;
  duration = pos 0;
  seed = none;
}
