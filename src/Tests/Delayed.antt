-- ===== src/Tests/Delayed.antt =====
-- The delay injector, the cancellation injector and the manager of patches.
use chaoskit.Prelude.{ℕ, ◌<◌, ◌≡◌, ◌⊎◌, refl, true, false, none, List, [], ◌∷◌, arith}
use chaoskit.Prelude.Int.{pos, add64}
use chaoskit.Exec.{pure}
use chaoskit.Exec.Ensures.{Leaves, Returns, DrawsBelow}
use chaoskit.Host.{Host}
use chaoskit.Injectors.Delay.{DelayInjector, random_delay, random_delay_with_interval}
use chaoskit.Injectors.Delay.Window.{opens, turn, get_chaos_delay, get_interval_delay}
use chaoskit.Injectors.Delay.Bounds.{Drawn, get_chaos_delay-Drawn}
use chaoskit.Injectors.Cancellation.{
  ContextCancellationInjector, new_cancellation, elem, stop_cancellations, toss, track, without,
}
use chaoskit.Injectors.Cancellation.Calls.{System, Step, Reach, here, next, started, after_stop}
use chaoskit.Injectors.Cancellation.Settled.{Reach-settled}
use chaoskit.Injectors.Patches.{restore_all_patches}
use chaoskit.Injectors.Patches.Order.{apply_all, restore_all_patches-before_last}
use chaoskit.Tests.{thousandths, idle}

abbrev still : Host ℕ
still = idle

seeds : Returns (still.new_rand none)
seeds = record { at = λ w u. tt }

draws : DrawsBelow {S = ℕ} (λ g n. pure 0)
draws g n h = record { at = λ w u. h }

abbrev delaying : DelayInjector ℕ
delaying = random_delay thousandths (pos 5) (pos 9)

get_chaos_delay-Drawn_example :
    Leaves {S = ℕ}
      (λ x _.
        ((x.0.0 ≡ pos 0) × (x.0.1 ≡ false) × (x.1 ≡ delaying))
        ⊎ ((n : ℕ) × (x.0.0 ≡ pos n)
            × (0 < n)
            × Drawn 5 9 n
            × (x.0.1 ≡ true)
            × (x.1 ≡ record delaying { delay_count = add64 delaying.delay_count (pos 1) })))
      (λ _. ⊥)
      (get_chaos_delay thousandths still (λ g n. pure 0) (λ g. pure 500) [] delaying 0)
unfolding random_delay
get_chaos_delay-Drawn_example =
    get_chaos_delay-Drawn thousandths still (λ g n. pure 0) seeds draws delaying 5 9 refl refl
      (omega arith) refl (λ g. pure 500) (λ g. record { at = λ w u. tt }) [] 0 refl

abbrev waiting : DelayInjector ℕ
waiting = random_delay_with_interval thousandths (pos 5) (pos 9) (pos 100)

-- A window that opens while the goroutine waits is seen; one that opens before its first turn is
-- missed.
window_tests :
    ((get_interval_delay thousandths (turn ∷ opens (pos 7) ∷ turn ∷ []) waiting).0 ≡ (pos 7, true))
    × ((get_interval_delay thousandths (opens (pos 7) ∷ turn ∷ turn ∷ []) waiting).0
        ≡ (pos 0, false))
unfolding get_interval_delay random_delay_with_interval
window_tests = (refl, refl)

abbrev canceller : ContextCancellationInjector ℕ
canceller = new_cancellation thousandths 500

-- A call makes the context 1 and tracks it, and the injector is stopped.
abbrev ended : System ℕ
ended = after_stop (record {
  injector = record canceller { cancellations = 1 ∷ []; cancel_count = pos 1 };
  live = 1 ∷ [];
  readers = 0;
  hands = [];
  overtaken = false;
})

ending : Reach (started canceller) ended
unfolding new_cancellation elem toss track add64 without
ending =
    next
      (next (next (next here (Step.reads refl)) (Step.makes 1 (omega arith) refl refl))
        (Step.tracks 1 true refl))
      (Step.stops refl)

Reach-settled_example : (ended.live ≡ []) × (ended.readers ≡ 0) × (ended.hands ≡ [])
unfolding new_cancellation stop_cancellations
Reach-settled_example = Reach-settled canceller ended refl ending refl refl

-- The variable 1 is patched twice.
abbrev patchings : List (ℕ × ℕ)
patchings = (1, 10) ∷ (2, 15) ∷ (1, 20) ∷ []

restore_all_patches-before_last_example :
    (restore_all_patches
        (record { patches = (apply_all patchings (λ a. a)).0 })
        (apply_all patchings (λ a. a)).1).1
      1
    ≡ 10
restore_all_patches-before_last_example = restore_all_patches-before_last patchings (λ a. a) 1
