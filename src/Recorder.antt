-- ===== src/Recorder.antt =====
-- executor.go, core.go: the event recorder that forwards to the validators which record.
use chaoskit.Prelude.{ℕ, none, some, List, [], ◌∷◌, if◌then◌else◌}
use chaoskit.Prelude.Int.{ℤ}
use chaoskit.Exec.{Exec, pure, ◌>>◌}
use chaoskit.Host.{Host, Context}

module _ {W : Type 0} (h : Host W) where
  -- RecordPanic, RecordRecursionDepth and RecordError of validatorEventRecorder
  unfoldable pub forward_panic : List ℕ → Context W → Exec W (Unit {0})
  forward_panic [] ctx = pure tt
  forward_panic (v ∷ vs) ctx = do
    if h.is_panic_recorder v then h.record_panic v ctx else pure tt
    forward_panic vs ctx

  unfoldable pub forward_recursion : List ℕ → ℤ → Exec W (Unit {0})
  forward_recursion [] depth = pure tt
  forward_recursion (v ∷ vs) depth = do
    if h.is_recursion_recorder v then h.record_recursion v depth else pure tt
    forward_recursion vs depth

  unfoldable pub forward_error : List ℕ → Context W → Exec W (Unit {0})
  forward_error [] ctx = pure tt
  forward_error (v ∷ vs) ctx = do
    if h.is_error_recorder v then h.record_error v ctx else pure tt
    forward_error vs ctx

  unfoldable pub attach_recorder : Context W → List ℕ → Context W
  attach_recorder ctx vs = record ctx { recorder = some vs }

  -- The functions that steps call: nothing is done where no recorder is attached.
  unfoldable pub record_panic : Context W → Exec W (Unit {0})
  unfolding forward_panic
  record_panic ctx = elim ctx.recorder [ none ↦ pure tt | some vs ↦ forward_panic vs ctx ]

  unfoldable pub record_recursion_depth : Context W → ℤ → Exec W (Unit {0})
  unfolding forward_recursion
  record_recursion_depth ctx depth = elim ctx.recorder [
    | none ↦ pure tt
    | some vs ↦ forward_recursion vs depth
  ]

  unfoldable pub record_error : Context W → Exec W (Unit {0})
  unfolding forward_error
  record_error ctx = elim ctx.recorder [ none ↦ pure tt | some vs ↦ forward_error vs ctx ]
