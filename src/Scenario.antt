-- ===== src/Scenario.antt =====
-- scenario.go: a scenario, its scopes, and the builder. Targets, steps, injectors and validators
-- are references to the values that the user passes in; `Step` wraps its function in a funcStep,
-- which is what its reference stands for.
use chaoskit.Prelude.{ℕ, Option, none, some, List, [], ◌∷◌, ◌++◌}
use chaoskit.Prelude.Int.{ℤ, pos}
use chaoskit.Text.{Str}

pub record Scope : Type 0 where
  pub name : Str
  pub injectors : List ℕ

pub record Scenario : Type 0 where
  pub name : Str
  pub target : Option ℕ
  pub steps : List ℕ
  pub injectors : List ℕ
  pub scopes : List Scope
  pub validators : List ℕ
  pub repeat : ℤ
  pub duration : ℤ
  pub seed : Option ℤ

unfoldable pub new_scenario : Str → Scenario
new_scenario name = record {
  name = name;
  target = none;
  steps = [];
  injectors = [];
  scopes = [];
  validators = [];
  repeat = pos 1;
  duration = pos 0;
  seed = none;
}

unfoldable pub with_target : Scenario → Option ℕ → Scenario
with_target b target = record b { target = target }

unfoldable pub step : Scenario → ℕ → Scenario
step b s = record b { steps = b.steps ++ s ∷ [] }

unfoldable pub inject : Scenario → ℕ → Scenario
inject b i = record b { injectors = b.injectors ++ i ∷ [] }

unfoldable pub assert : Scenario → ℕ → Scenario
assert b v = record b { validators = b.validators ++ v ∷ [] }

unfoldable pub repeat : Scenario → ℤ → Scenario
repeat b n = record b { repeat = n }

unfoldable pub run_for : Scenario → ℤ → Scenario
run_for b d = record b { duration = d }

unfoldable pub with_seed : Scenario → ℤ → Scenario
with_seed b s = record b { seed = some s }

unfoldable pub scope_inject : Scope → ℕ → Scope
scope_inject sc i = record sc { injectors = sc.injectors ++ i ∷ [] }

-- `fn` is what the user's function does to the scope's builder.
unfoldable pub scope : Scenario → Str → (Scope → Scope) → Scenario
scope b name fn = record b { scopes = b.scopes ++ fn (record { name = name; injectors = [] }) ∷ [] }
