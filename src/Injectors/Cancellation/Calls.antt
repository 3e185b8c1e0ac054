-- ===== src/Injectors/Cancellation/Calls.antt =====
-- The critical sections of ContextCancellationInjector, in any interleaving of concurrent calls
-- (injectors/context_cancellation.go).
use chaoskit.Prelude.{ℕ, ◌+◌, ◌-◌, ◌<◌, ◌≡◌, ◌||◌, Bool, true, false, List, [], ◌∷◌, ltb, length}
use chaoskit.Injectors.Cancellation.{
  ContextCancellationInjector, elem, without, stop_cancellations, track, untrack, toss,
}

-- `readers` counts the calls of GetChaosContext that have found the injector running and have no
-- context yet; `hands` lists the contexts that are made and not yet tracked. `overtaken` tells
-- whether there was such a call when the injector was stopped.
pub record System (Float : Type 0) : Type 0 where
  pub injector : ContextCancellationInjector Float
  pub live : List ℕ
  pub readers : ℕ
  pub hands : List ℕ
  pub overtaken : Bool

module _ {Float : Type 0} where
  abbrev pub is_busy : System Float → Bool
  is_busy s = ltb 0 s.readers || ltb 0 (length s.hands)

  abbrev pub after_stop : System Float → System Float
  after_stop s = record s {
    injector = (stop_cancellations s.injector s.live).0;
    live = (stop_cancellations s.injector s.live).1;
    overtaken = is_busy s;
  }

  pub data Step (s : System Float) : System Float → Type 0 where
    -- The first critical section of GetChaosContext.
    reads : s.injector.stopped ≡ false → Step s (record s { readers = s.readers + 1 })
    -- context.WithCancel makes a new context.
    makes :
        (n : ℕ)
        → 0 < s.readers
        → elem n s.live ≡ false
        → elem n s.injector.cancellations ≡ false
        → Step s (record s { readers = s.readers - 1; live = n ∷ s.live; hands = n ∷ s.hands })
    -- The second critical section, and the draw.
    tracks :
        (n : ℕ) (hit : Bool)
        → elem n s.hands ≡ true
        → Step s (record s { hands = without n s.hands; injector = toss hit (track n s.injector) })
    -- A context is cancelled: by its caller, by the goroutine of its call, or with its parent.
    ends : (n : ℕ) → Step s (record s { live = without n s.live })
    -- The critical section behind a cancel().
    untracks :
        (n : ℕ) → elem n s.live ≡ false → Step s (record s { injector = untrack n s.injector })
    stops : s.injector.stopped ≡ false → Step s (after_stop s)
    -- Stop of a stopped injector.
    stops_again :
        s.injector.stopped ≡ true
        → Step s (record s {
          injector = (stop_cancellations s.injector s.live).0;
          live = (stop_cancellations s.injector s.live).1;
        })

  pub data Reach (s : System Float) : System Float → Type 0 where
    here : Reach s s
    next : {t u : System Float} → Reach s t → Step t u → Reach s u

  -- Before the first call.
  abbrev pub started : ContextCancellationInjector Float → System Float
  started c = record { injector = c; live = []; readers = 0; hands = []; overtaken = false }
