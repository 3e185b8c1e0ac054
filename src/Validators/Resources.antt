-- ===== src/Validators/Resources.antt =====
-- validators/goroutine_leak.go, validators/memory_limit.go and validators/state_consistency.go.
-- `current` is runtime.NumGoroutine(), `alloc` the allocated bytes of runtime.ReadMemStats.
use chaoskit.Prelude.{
  ℕ, ◌*◌, ◌/◌, ◌≡◌, refl, ◌↔◌, ◌++◌, Bool, true, false, Option, none, some, arith, ltb,
  if◌then◌else◌,
}
use chaoskit.Prelude.Int.{ℤ, pos, ltb_ℤ, ◌≤ℤ◌}
use chaoskit.Text.{Str, codes, show_int, show_nat}
use chaoskit.Errors.{Error, plain}
use chaoskit.Exec.{Exec}
use chaoskit.Host.{Context}
use chaoskit.Verdict.{Severity, critical, warning}

pub record GoroutineLeakValidator : Type 0 where
  pub name : Str
  pub baseline : ℤ
  pub max_goroutines : ℤ
  pub initialized : Bool

unfoldable pub no_goroutine_leak : GoroutineLeakValidator
no_goroutine_leak = record {
  name = codes "no_goroutine_leak";
  baseline = pos 0;
  max_goroutines = pos 1000;
  initialized = false;
}

unfoldable pub goroutine_limit : ℤ → GoroutineLeakValidator
goroutine_limit max = record {
  name = codes "goroutine_limit_" ++ show_int max;
  baseline = pos 0;
  max_goroutines = max;
  initialized = false;
}

unfoldable pub goroutine_severity : GoroutineLeakValidator → Severity
goroutine_severity g = critical

abbrev pub leak_detected : GoroutineLeakValidator → ℤ → Error
leak_detected g current = plain (
    codes "goroutine leak detected: "
    ++ show_int current
    ++ codes " goroutines (limit: "
    ++ show_int g.max_goroutines
    ++ codes ", baseline: "
    ++ show_int g.baseline
    ++ codes ")")

-- The first call only takes the baseline.
unfoldable pub validate_goroutines :
    GoroutineLeakValidator → ℤ → Option Error × GoroutineLeakValidator
validate_goroutines g current =
    if g.initialized
    then (if ltb_ℤ g.max_goroutines current then some (leak_detected g current) else none, g)
    else (none, record g { baseline = current; initialized = true })

pub record MemoryLimitValidator : Type 0 where
  pub name : Str
  pub limit_bytes : ℕ

unfoldable pub memory_under_limit : ℕ → MemoryLimitValidator
memory_under_limit limit = record {
  name = codes "memory_under_" ++ (show_nat (limit / (1024 * 1024)) ++ codes "MB");
  limit_bytes = limit;
}

unfoldable pub memory_severity : MemoryLimitValidator → Severity
memory_severity m = critical

unfoldable pub validate_memory : MemoryLimitValidator → ℕ → Option Error
validate_memory m alloc =
    if ltb m.limit_bytes alloc
    then some (
        plain (
          codes "memory limit exceeded: "
          ++ show_nat alloc
          ++ codes " bytes (limit: "
          ++ show_nat m.limit_bytes
          ++ codes " bytes)"))
    else none

-- The check is the user's function of a target.
pub record StateConsistencyValidator (W : Type 0) : Type 0 where
  pub name : Str
  pub check_func : Context W → ℕ → Exec W (Option Error)

module _ {W : Type 0} where
  unfoldable pub state_consistency :
      Str → (Context W → ℕ → Exec W (Option Error)) → StateConsistencyValidator W
  state_consistency name check_func = record { name = name; check_func = check_func }

  unfoldable pub consistency_severity : StateConsistencyValidator W → Severity
  consistency_severity s = warning

  unfoldable pub validate_state :
      StateConsistencyValidator W → Context W → ℕ → Exec W (Option Error)
  validate_state s ctx target = s.check_func ctx target

limit_none :
    (max current : ℤ) (e : Error)
    → ((if ltb_ℤ max current then some e else none) ≡ none) ↔ (current ≤ℤ max)
limit_none max current e = ground arith

-- A new goroutine validator passes its first check at any number of goroutines, and takes it for the
-- baseline; from then on it passes exactly when the limit, not the baseline, is kept, and its state
-- stays the same.
pub validate_goroutines-limit :
    (max first current : ℤ)
    → ((validate_goroutines (goroutine_limit max) first).0 ≡ none)
      × (((validate_goroutines (validate_goroutines (goroutine_limit max) first).1 current).0
            ≡ none)
          ↔ (current ≤ℤ max))
      × ((validate_goroutines (validate_goroutines (goroutine_limit max) first).1 current).1
          ≡ (validate_goroutines (goroutine_limit max) first).1)
unfolding validate_goroutines goroutine_limit
validate_goroutines-limit max first current = (refl, limit_none max current _, refl)
