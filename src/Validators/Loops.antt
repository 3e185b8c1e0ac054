-- ===== src/Validators/Loops.antt =====
-- validators/infinity_loop.go: InfiniteLoopValidator, whose WrapStep races a step against a timer.
use chaoskit.Prelude.{ℕ, Option, none, some, ◌++◌, if◌then◌else◌}
use chaoskit.Prelude.Int.{ℤ, pos, add64}
use chaoskit.Text.{Str, codes}
use chaoskit.Errors.{Error, plain, is_deadline}
use chaoskit.Platform.{Platform}
use chaoskit.Verdict.{Severity, critical}
use chaoskit.Exec.{Exec, Outcome, pure, defer, recover, ◌>>=◌}
use chaoskit.Host.{Host, Context, StepValue}

pub record InfiniteLoopValidator : Type 0 where
  pub name : Str
  pub timeout : ℤ
  pub detections_count : ℤ

unfoldable pub loop_severity : InfiniteLoopValidator → Severity
loop_severity v = critical

-- Validate finds nothing: the detection is in WrapStep.
unfoldable pub validate_loops : InfiniteLoopValidator → Option Error
validate_loops v = none

module _ (p : Platform) where
  open p use {show_duration}

  unfoldable pub no_infinite_loop : ℤ → InfiniteLoopValidator
  no_infinite_loop timeout = record {
    name = codes "no_infinite_loop_" ++ show_duration timeout;
    timeout = timeout;
    detections_count = pos 0;
  }

  abbrev loop_error : Str → InfiniteLoopValidator → Error
  loop_error name v = plain (
      codes "infinite loop detected in step "
      ++ name
      ++ codes ": exceeded timeout "
      ++ show_duration v.timeout)

  -- The timeout's context is done first, with the error `e`.
  expired : Str → Error → InfiniteLoopValidator → Option Error × InfiniteLoopValidator
  expired name e v =
      if is_deadline e
      then (
        some (loop_error name v),
        record v { detections_count = add64 v.detections_count (pos 1) },
      )
      else (some e, v)

  module _ {W : Type 0} (h : Host W) where
    abbrev under : Context W → ℕ → Context W
    under ctx handle = record ctx { handle = handle }

    -- The goroutine: a panic of the step becomes an error.
    step_result : StepValue W → Context W → ℕ → Exec W (Option Error)
    step_result s ctx target =
        recover (λ v. pure (some (plain (codes "panic in step: " ++ v)))) (s.execute ctx target)

    -- `done` tells which channel the first select finds ready: none for the step's result, which
    -- has then run to its end, or the error of the context. In the second case `so_far` is what the
    -- goroutine does to the world before WrapStep returns, and what it does later belongs to the
    -- calls that follow.
    unfoldable pub wrap_step :
        Option Error
        → (W → W)
        → InfiniteLoopValidator
        → StepValue W
        → Context W
        → ℕ
        → Exec W (Option Error × InfiniteLoopValidator)
    unfolding step_result expired
    wrap_step done so_far v s ctx target = h.with_timeout ctx.handle v.timeout >>= λ timed.
        defer (h.cancel timed) (elim done [
          | none ↦ step_result s (under ctx timed) target >>= λ e. pure (e, v)
          | some e ↦ λ w. (Outcome.returns (expired s.name e v), so_far w)
        ])
