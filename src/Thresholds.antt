-- ===== src/Thresholds.antt =====
-- thresholds.go: the criteria of success, their presets and their validation.
use chaoskit.Prelude.{List, [], ◌∷◌, Bool, true, false, ◌||◌, if◌then◌else◌}
use chaoskit.Prelude.Int.{ℤ, pos, ltb_ℤ}
use chaoskit.Text.{Str, codes}
use chaoskit.Errors.{Result, ok, err, plain}
use chaoskit.Platform.{Platform}

-- Validator identifiers
abbrev pub goroutine_limit : Str
goroutine_limit = codes "goroutine-limit"

abbrev pub recursion_depth : Str
recursion_depth = codes "recursion-depth"

abbrev pub slow_iteration : Str
slow_iteration = codes "slow-iteration"

abbrev pub memory_limit : Str
memory_limit = codes "memory-limit"

abbrev pub panic_recovery : Str
panic_recovery = codes "panic-recovery"

abbrev pub execution_time : Str
execution_time = codes "execution-time"

abbrev pub recursion_depth_limit : Str
recursion_depth_limit = codes "recursion-depth-limit"

abbrev pub memory_under : Str
memory_under = codes "memory-under"

abbrev pub panics : Str
panics = codes "panics"

abbrev pub infinite_loop : Str
infinite_loop = codes "infinite-loop"

abbrev pub max_errors : Str
max_errors = codes "max-errors"

-- Error type identifiers
abbrev pub type_goroutine_leak : Str
type_goroutine_leak = codes "goroutine-leak"

abbrev pub type_panic : Str
type_panic = codes "panic"

abbrev pub type_recursion : Str
type_recursion = codes "recursion"

abbrev pub type_timeout : Str
type_timeout = codes "timeout"

abbrev pub type_memory : Str
type_memory = codes "memory"

abbrev pub type_other : Str
type_other = codes "other"

abbrev pub type_unknown : Str
type_unknown = codes "unknown"

pub record SuccessThresholds (Float : Type 0) : Type 0 where
  pub min_success_rate : Float
  pub critical_validators : List Str
  pub warning_validators : List Str
  pub max_failed_iterations : ℤ
  pub max_avg_duration : ℤ
  pub require_all_validators_passing : Bool

module _ (p : Platform) where
  open p use {Float, float_lt, literal}

  unfoldable pub default_thresholds : SuccessThresholds Float
  default_thresholds = record {
    min_success_rate = literal 95 2;
    critical_validators =
        goroutine_limit ∷ recursion_depth ∷ slow_iteration ∷ memory_limit ∷ infinite_loop ∷ [];
    warning_validators = [];
    max_failed_iterations = pos 0;
    max_avg_duration = pos 0;
    require_all_validators_passing = false;
  }

  unfoldable pub strict_thresholds : SuccessThresholds Float
  strict_thresholds = record {
    min_success_rate = literal 1 0;
    critical_validators =
        goroutine_limit ∷ recursion_depth ∷ slow_iteration ∷ memory_limit ∷ panic_recovery
        ∷ infinite_loop ∷ [];
    warning_validators = [];
    max_failed_iterations = pos 0;
    max_avg_duration = pos 0;
    require_all_validators_passing = true;
  }

  unfoldable pub relaxed_thresholds : SuccessThresholds Float
  relaxed_thresholds = record {
    min_success_rate = literal 80 2;
    critical_validators = goroutine_limit ∷ [];
    warning_validators = [];
    max_failed_iterations = pos 200;
    max_avg_duration = pos 0;
    require_all_validators_passing = false;
  }

  -- Validate
  unfoldable pub validate : SuccessThresholds Float → Result (Unit {0})
  validate t =
      if float_lt t.min_success_rate (literal 0 0) || float_lt (literal 1 0) t.min_success_rate
      then err (plain (codes "min_success_rate must be between 0.0 and 1.0"))
      else if ltb_ℤ t.max_failed_iterations (pos 0)
      then err (plain (codes "max_failed_iterations must be >= 0"))
      else ok tt
