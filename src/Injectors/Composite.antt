-- ===== src/Injectors/Composite.antt =====
-- injectors/composite.go: several injectors as one.
use chaoskit.Prelude.{
  ℕ, ◌≡◌, refl, sym, ap, subst, Option, none, some, List, [], ◌∷◌, ◌++◌, append-nil, append_assoc,
  map,
}
use chaoskit.Text.{Str, codes, join}
use chaoskit.Errors.{Error, plain, wrapped, message}
use chaoskit.Exec.{Exec, pure, ◌>>=◌}
use chaoskit.Exec.Ensures.{Ensures, Ensures-pure, Ensures-bind, Ensures-weaken}
use chaoskit.Host.{Host, Context}
use chaoskit.Executor.Lifecycle.{Startable}

pub record CompositeInjector : Type 0 where
  pub name : Str
  pub injectors : List ℕ

unfoldable pub composite : Str → List ℕ → CompositeInjector
composite name injectors = record { name = name; injectors = injectors }

-- if err != nil { errs = append(errs, err) }
abbrev with_error : List Error → Option Error → List Error
with_error errs none = errs
with_error errs (some e) = errs ++ e ∷ []

-- %v of a slice of errors puts them between brackets.
abbrev stop_error : List Error → Option Error
stop_error [] = none
stop_error (e ∷ errs) = some (
    plain (
      codes "errors stopping injectors: ["
      ++ join (map message (e ∷ errs)) (codes " ")
      ++ codes "]"))

module _ {W : Type 0} (h : Host W) where
  unfoldable pub inject_each : Context W → List ℕ → Exec W (Option Error)
  inject_each ctx [] = pure none
  inject_each ctx (i ∷ is) = do
    failed ← h.inject i ctx
    elim failed [
      | none ↦ inject_each ctx is
      | some e ↦
          pure (some (wrapped (codes "injector " ++ h.injector_name i ++ codes " failed: ") e))
    ]

  unfoldable pub inject_composite : CompositeInjector → Context W → Exec W (Option Error)
  unfolding inject_each
  inject_composite c ctx = inject_each ctx c.injectors

  unfoldable pub stop_each : Context W → List Error → List ℕ → Exec W (List Error)
  stop_each ctx errs [] = pure errs
  stop_each ctx errs (i ∷ is) = do failed ← h.stop i ctx; stop_each ctx (with_error errs failed) is

  unfoldable pub stop_composite : CompositeInjector → Context W → Exec W (Option Error)
  unfolding stop_each
  stop_composite c ctx = stop_each ctx [] c.injectors >>= λ errs. pure (stop_error errs)

module _ {W : Type 0} (h : Host W) (ctx : Context W) (Running : List ℕ → W → Type 0)
    (startable : Startable h ctx Running) where
  -- After an error the injectors before the failed one are running.
  abbrev pub Injected : List ℕ → List ℕ → Option Error → W → Type 0
  Injected l is none w = Running (l ++ is) w
  Injected l is (some e) w =
      (before : List ℕ) × (failed : ℕ) × (after : List ℕ) × (is ≡ before ++ failed ∷ after)
      × Running (l ++ before) w

  later :
      (l : List ℕ) (i : ℕ) (is : List ℕ) (o : Option Error) (w : W)
      → Injected (l ++ i ∷ []) is o w
      → Injected l (i ∷ is) o w
  later l i is none w r = subst (λ m. Running m w) (append_assoc l (i ∷ []) is) r
  later l i is (some e) w (before, failed, after, p, r) = (
    i ∷ before,
    failed,
    after,
    ap (λ m. i ∷ m) p,
    subst (λ m. Running m w) (append_assoc l (i ∷ []) before) r,
  )

  inject_each_ensures :
      (l is : List ℕ) → Ensures (Running l) (inject_each h ctx is) (Injected l is) (λ _. ⊥)
  unfolding inject_each
  inject_each_ensures l [] =
      Ensures-pure none (λ w r. subst (λ m. Running m w) (sym (append-nil l)) r)
  inject_each_ensures l (i ∷ is) = Ensures-bind (startable.starts i l) (elim [
    | none ↦
        Ensures-weaken (inject_each_ensures (l ++ i ∷ []) is) (λ w r. r) (later l i is) (λ w r. r)
    | some e ↦
        Ensures-pure _ (λ w r. ([], i, is, refl, subst (λ m. Running m w) (sym (append-nil l)) r))
  ])

  stop_each_ensures :
      (errs : List Error) (l : List ℕ)
      → Ensures (Running l) (stop_each h ctx errs l) (λ _. Running []) (λ _. ⊥)
  unfolding stop_each
  stop_each_ensures errs [] = Ensures-pure errs (λ w r. r)
  stop_each_ensures errs (i ∷ is) =
      Ensures-bind (startable.stops i is) λ o. stop_each_ensures (with_error errs o) is

  -- A composite of injectors that keep their promises: where none runs, Inject without an error
  -- starts all of them, in order, and with one leaves those before the failed one running. Where
  -- all of them run, Stop stops them all, also past those whose Stop returns an error. Neither
  -- panics.
  pub composite-Running :
      (c : CompositeInjector)
      → Ensures (Running []) (inject_composite h c ctx) (Injected [] c.injectors) (λ _. ⊥)
        × Ensures (Running c.injectors) (stop_composite h c ctx) (λ _. Running []) (λ _. ⊥)
  unfolding inject_composite stop_composite
  composite-Running c = (
    inject_each_ensures [] c.injectors,
    Ensures-bind (stop_each_ensures [] c.injectors) (λ errs. Ensures-pure _ (λ w r. r)),
  )
