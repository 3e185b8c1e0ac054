-- ===== src/Validators/Timing.antt =====
-- validators/execution_time.go and validators/slow_iteration.go. A duration is the difference of two
-- instants; `now` is what time.Now returns, and the code reads the clock anew for each use.
use chaoskit.Prelude.{
  ◌≡◌, refl, ◌↔◌, ◌++◌, Bool, true, false, Option, none, some, arith, if◌then◌else◌,
}
use chaoskit.Prelude.Int.{ℤ, ltb_ℤ, ◌≤ℤ◌, minus, minus_mono, ltb_ℤ-trans}
use chaoskit.Text.{Str, codes}
use chaoskit.Errors.{Error, plain}
use chaoskit.Platform.{Platform}
use chaoskit.Verdict.{Severity, warning, critical}

pub record ExecutionTimeValidator : Type 0 where
  pub name : Str
  pub min_duration : ℤ
  pub max_duration : ℤ
  pub start_time : ℤ

pub record SlowIterationValidator : Type 0 where
  pub name : Str
  pub timeout : ℤ
  pub last_check_time : ℤ

unfoldable pub execution_severity : ExecutionTimeValidator → Severity
execution_severity e = warning

unfoldable pub slow_severity : SlowIterationValidator → Severity
slow_severity i = critical

within :
    (elapsed min max : ℤ) (f g : Error)
    → ((if ltb_ℤ elapsed min then some f else if ltb_ℤ max elapsed then some g else none) ≡ none)
      ↔ ((min ≤ℤ elapsed) × (elapsed ≤ℤ max))
within elapsed min max f g = ground arith

outside :
    (b c : Bool) (f g : Error)
    → c ≡ true
    → (k : Error) × ((if b then some f else if c then some g else none) ≡ some k)
outside true c f g h = (f, refl)
outside false c f g h = (g, rw h refl)

abbrev Checked : Type 0
Checked = Option Error × SlowIterationValidator

abbrev first : Checked → Option Error
first (o, i) = o

blamed_time :
    (b : Bool) (x e : Error) (i j : SlowIterationValidator)
    → first (if b then (some x, i) else (none, j)) ≡ some e
    → b ≡ true
blamed_time true x e i j h = refl
blamed_time false x e i j h = cc

kept_time : (b : Bool) (x y : Checked) → b ≡ true → (if b then x else y) ≡ x
kept_time true x y h = refl
kept_time false x y h = cc

module _ (p : Platform) where
  open p use {show_duration}

  unfoldable pub execution_time : ℤ → ℤ → ℤ → ExecutionTimeValidator
  execution_time min max now = record {
    name = codes "execution_time_" ++ show_duration min ++ codes "_" ++ show_duration max;
    min_duration = min;
    max_duration = max;
    start_time = now;
  }

  -- The warning at 90% of the limit only writes to the log.
  unfoldable pub validate_time : ExecutionTimeValidator → ℤ → Option Error
  validate_time e now =
      let elapsed = minus now e.start_time in
      if ltb_ℤ elapsed e.min_duration
      then some (
          plain (
            codes "execution too fast: "
            ++ show_duration elapsed
            ++ codes " (min: "
            ++ show_duration e.min_duration
            ++ codes ")"))
      else if ltb_ℤ e.max_duration elapsed
      then some (
          plain (
            codes "execution too slow: "
            ++ show_duration elapsed
            ++ codes " (max: "
            ++ show_duration e.max_duration
            ++ codes ")"))
      else none

  unfoldable pub no_slow_iteration : ℤ → ℤ → SlowIterationValidator
  no_slow_iteration timeout now = record {
    name = codes "slow_iteration_" ++ show_duration timeout;
    timeout = timeout;
    last_check_time = now;
  }

  -- `now` is read at the start, `later` at the end.
  unfoldable pub validate_progress :
      SlowIterationValidator → ℤ → ℤ → Option Error × SlowIterationValidator
  validate_progress i now later =
      let elapsed = minus now i.last_check_time in
      if ltb_ℤ i.timeout elapsed
      then (
        some (
            plain (
              codes "possible long-processing loop detected: no progress for "
              ++ show_duration elapsed)),
        i,
      )
      else (none, record i { last_check_time = later })

  time_passes :
      (e : ExecutionTimeValidator) (now : ℤ)
      → (validate_time e now ≡ none)
        ↔ ((e.min_duration ≤ℤ minus now e.start_time) × (minus now e.start_time ≤ℤ e.max_duration))
  unfolding validate_time
  time_passes e now = within (minus now e.start_time) e.min_duration e.max_duration _ _

  time_fails :
      (e : ExecutionTimeValidator) (now : ℤ)
      → ltb_ℤ e.max_duration (minus now e.start_time) ≡ true
      → (f : Error) × (validate_time e now ≡ some f)
  unfolding validate_time
  time_fails e now h = outside (ltb_ℤ (minus now e.start_time) e.min_duration) _ _ _ h

  progress_fails :
      (i : SlowIterationValidator) (now later : ℤ)
      → ltb_ℤ i.timeout (minus now i.last_check_time) ≡ true
      → (f : Error) × (validate_progress i now later ≡ (some f, i))
  unfolding validate_progress
  progress_fails i now later h = (_, kept_time _ _ _ h)

  progress_failed :
      (i : SlowIterationValidator) (now later : ℤ) (e : Error)
      → (validate_progress i now later).0 ≡ some e
      → ltb_ℤ i.timeout (minus now i.last_check_time) ≡ true
  unfolding validate_progress
  progress_failed i now later e h = blamed_time _ _ e _ _ h

  -- The execution time validator passes exactly when the time since its own creation is within its
  -- bounds. Once that time is over the maximum it fails at every later time.
  pub validate_time-within :
      (e : ExecutionTimeValidator) (now : ℤ)
      → ((validate_time e now ≡ none) ↔ (
          (e.min_duration ≤ℤ minus now e.start_time) × (minus now e.start_time ≤ℤ e.max_duration)))
        × ((later : ℤ)
            → ltb_ℤ e.max_duration (minus now e.start_time) ≡ true
            → now ≤ℤ later
            → (f : Error) × (validate_time e later ≡ some f))
  validate_time-within e now = (
    time_passes e now,
    (λ later h l.
        time_fails e later
          (ltb_ℤ-trans e.max_duration _ _ h (minus_mono now later e.start_time l))),
  )

  -- The slow iteration validator does not move its clock on when it fails, so that after one failure
  -- it fails at every later time, however fast the iterations are.
  pub validate_progress-stuck :
      (i : SlowIterationValidator) (now later then' after : ℤ) (e : Error)
      → (validate_progress i now later).0 ≡ some e
      → now ≤ℤ then'
      → (f : Error) × ((validate_progress (validate_progress i now later).1 then' after).0 ≡ some f)
  validate_progress-stuck i now later then' after e h l =
      let late = progress_failed i now later e h in
      let (f, p) = progress_fails i now later late in
      let (g, q) =
        progress_fails i then' after
          (ltb_ℤ-trans i.timeout _ _ late (minus_mono now then' i.last_check_time l)) in
      (g, rw (p, q) refl)
