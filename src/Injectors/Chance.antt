-- ===== src/Injectors/Chance.antt =====
-- injectors/error.go and injectors/panic.go: injectors that draw a random number whenever user code
-- asks. `draw` is Float64 of a generator, which is a reference as in Host.
use chaoskit.Prelude.{
  ℕ, ◌≡◌, refl, subst, sym, ap, ◌∙◌, ◌++◌, Bool, true, false, Option, none, some, if◌then◌else◌,
}
use chaoskit.Prelude.Int.{ℤ, pos, add64}
use chaoskit.Text.{Str, codes}
use chaoskit.Errors.{Error, plain}
use chaoskit.Platform.{Platform}
use chaoskit.Exec.{Exec, Outcome, panics, pure, ◌>>=◌}
use chaoskit.Host.{Host, Context}
use chaoskit.ChaosContext.{get_rand}

pub record ErrorInjector (Float : Type 0) : Type 0 where
  pub name : Str
  pub probability : Float
  pub error_msg : Str
  pub error_count : ℤ
  pub stopped : Bool
  pub rng : Option ℕ

pub record PanicInjector (Float : Type 0) : Type 0 where
  pub name : Str
  pub probability : Float
  pub stopped : Bool
  pub rng : Option ℕ

abbrev pub already_stopped : Error
already_stopped = plain (codes "injector already stopped")

module _ (p : Platform) where
  open p use {Float, float_lt, show_fixed}

  unfoldable pub error_with_probability : Str → Float → ErrorInjector Float
  error_with_probability msg probability = record {
    name = codes "error_injector";
    probability = probability;
    error_msg = msg;
    error_count = pos 0;
    stopped = false;
    rng = none;
  }

  unfoldable pub panic_probability : Float → PanicInjector Float
  panic_probability probability = record {
    name = codes "panic_injector_" ++ show_fixed probability;
    probability = probability;
    stopped = false;
    rng = none;
  }

  unfoldable pub stop_errors : ErrorInjector Float → ErrorInjector Float
  stop_errors e = record e { stopped = true }

  unfoldable pub stop_panics : PanicInjector Float → PanicInjector Float
  stop_panics q = record q { stopped = true }

  -- AfterStep counts the steps that fail; BeforeStep does nothing.
  unfoldable pub after_step : ErrorInjector Float → Option Error → ErrorInjector Float
  after_step e none = e
  after_step e (some err) = record e { error_count = add64 e.error_count (pos 1) }

  module _ {W : Type 0} (h : Host W) (draw : ℕ → Exec W Float) where
    unfoldable pub inject_errors :
        ErrorInjector Float → Context W → Exec W (Option Error × ErrorInjector Float)
    inject_errors e ctx =
        if e.stopped
        then pure (some already_stopped, e)
        else (get_rand h ctx >>= λ rng. pure (none, record e { rng = some rng }))

    unfoldable pub inject_panics :
        PanicInjector Float → Context W → Exec W (Option Error × PanicInjector Float)
    inject_panics q ctx =
        if q.stopped
        then pure (some already_stopped, q)
        else (get_rand h ctx >>= λ rng. pure (none, record q { rng = some rng }))

    -- A generator that is missing is a nil pointer.
    unfoldable pub should_return_error : ErrorInjector Float → Exec W (Option Error)
    should_return_error e = if e.stopped then pure none else elim e.rng [
      | none ↦ λ w.
          (panics (codes "runtime error: invalid memory address or nil pointer dereference"), w)
      | some rng ↦ draw rng >>= λ x.
          pure (if float_lt x e.probability then some (plain e.error_msg) else none)
    ]

    unfoldable pub should_chaos_panic : PanicInjector Float → Exec W Bool
    should_chaos_panic q =
        if q.stopped
        then pure false
        else (elim q.rng [ none ↦ h.new_rand none | some rng ↦ pure rng ] >>= draw >>= λ x.
            pure (float_lt x q.probability))

    -- One call of a method that changes an error injector, in the world `w`.
    pub data Step : ErrorInjector Float → ErrorInjector Float → Type 0 where
      injected :
          (e e' : ErrorInjector Float) (ctx : Context W) (w w' : W) (o : Option Error)
          → inject_errors e ctx w ≡ (Outcome.returns (o, e'), w')
          → Step e e'
      stopping : (e : ErrorInjector Float) → Step e (stop_errors e)
      stepped : (e : ErrorInjector Float) (o : Option Error) → Step e (after_step e o)

    pub data Reach : ErrorInjector Float → ErrorInjector Float → Type 0 where
      here : (e : ErrorInjector Float) → Reach e e
      there : (a b c : ErrorInjector Float) → Step a b → Reach b c → Reach a c

    refused :
        (e : ErrorInjector Float) (ctx : Context W) (w : W)
        → e.stopped ≡ true
        → inject_errors e ctx w ≡ (Outcome.returns (some already_stopped, e), w)
    unfolding inject_errors
    refused e ctx w s = rw s refl

    silent :
        (e : ErrorInjector Float) (w : W)
        → e.stopped ≡ true
        → should_return_error e w ≡ (Outcome.returns none, w)
    unfolding should_return_error
    silent e w s = rw s refl

    -- What an injection leaves, with `d` after a panic.
    abbrev left :
        ErrorInjector Float → Outcome (Option Error × ErrorInjector Float) × W → ErrorInjector Float
    left d (Outcome.returns (o, e), w) = e
    left d (panics v, w) = d

    still_stopped : (a b : ErrorInjector Float) → Step a b → a.stopped ≡ true → b.stopped ≡ true
    unfolding stop_errors after_step
    still_stopped a b (injected e e' ctx w w' o q) s =
        subst (λ x. x.stopped ≡ true) (ap (left e) (sym (refused e ctx w s) ∙ q)) s
    still_stopped a b (stopping e) s = refl
    still_stopped a b (stepped e none) s = s
    still_stopped a b (stepped e (some err)) s = s

    Reach-stopped : (a b : ErrorInjector Float) → Reach a b → a.stopped ≡ true → b.stopped ≡ true
    Reach-stopped a b (here e) s = s
    Reach-stopped a b (there x y z p r) s = Reach-stopped y z r (still_stopped x y p s)

    -- A stopped error injector stays so: after Stop and any sequence of Inject, AfterStep and Stop
    -- it injects no error, touches no generator, and refuses to be injected again.
    pub stop_errors-stays :
        (a b : ErrorInjector Float) (ctx : Context W) (w : W)
        → Reach (stop_errors a) b
        → (should_return_error b w ≡ (Outcome.returns none, w))
          × (inject_errors b ctx w ≡ (Outcome.returns (some already_stopped, b), w))
    unfolding stop_errors
    stop_errors-stays a b ctx w r =
        let s = Reach-stopped _ b r refl in (silent b w s, refused b ctx w s)
