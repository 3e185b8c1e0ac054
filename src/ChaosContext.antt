-- ===== src/ChaosContext.antt =====
-- chaos_context.go: what user code calls to let chaos in, and the random generator of a context.
use chaoskit.Prelude.{ℕ, Bool, true, false, Option, none, some}
use chaoskit.Prelude.Int.{ℤ}
use chaoskit.Text.{Str, codes}
use chaoskit.Dict
use chaoskit.Errors.{Error}
use chaoskit.Exec.{Exec, pure, panics, ◌>>=◌}
use chaoskit.Host.{Host, Context, Chaos}

module _ {W : Type 0} (h : Host W) where
  unfoldable pub attach_chaos : Context W → Chaos W → Context W
  attach_chaos ctx chaos = record ctx { chaos = some chaos }

  unfoldable pub attach_rand : Context W → ℕ → Context W
  attach_rand ctx rng = record ctx { rand = some rng }

  unfoldable pub get_rand : Context W → Exec W ℕ
  get_rand ctx = elim ctx.rand [ none ↦ h.new_rand none | some rng ↦ pure rng ]

  maybe_error_in : Option (Chaos W) → Exec W (Option Error)
  maybe_error_in none = pure none
  maybe_error_in (some chaos) = elim chaos.error_func [ none ↦ pure none | some f ↦ f ]

  unfoldable pub maybe_error : Context W → Exec W (Option Error)
  unfolding maybe_error_in
  maybe_error ctx = maybe_error_in ctx.chaos

  panic_if : Bool → Exec W (Unit {0})
  panic_if true w = (panics (codes "chaos: injected panic"), w)
  panic_if false w = pure tt w

  maybe_panic_in : Option (Chaos W) → Exec W (Unit {0})
  unfolding panic_if
  maybe_panic_in none = pure tt
  maybe_panic_in (some chaos) = elim chaos.panic_func [ none ↦ pure tt | some f ↦ f >>= panic_if ]

  unfoldable pub maybe_panic : Context W → Exec W (Unit {0})
  unfolding maybe_panic_in
  maybe_panic ctx = maybe_panic_in ctx.chaos

  maybe_delay_in : Option (Chaos W) → Exec W (Unit {0})
  maybe_delay_in none = pure tt
  maybe_delay_in (some chaos) = elim chaos.delay_func [
    | none ↦ pure tt
    | some f ↦ f >>= λ _. pure tt
  ]

  unfoldable pub maybe_delay : Context W → Exec W (Unit {0})
  unfolding maybe_delay_in
  maybe_delay ctx = maybe_delay_in ctx.chaos

  maybe_network_in : Option (Chaos W) → Str → ℤ → Exec W (Unit {0})
  maybe_network_in none host port = pure tt
  maybe_network_in (some chaos) host port = elim chaos.network_func [
    | none ↦ pure tt
    | some f ↦ f host port >>= λ _. pure tt
  ]

  unfoldable pub maybe_network_chaos : Context W → Str → ℤ → Exec W (Unit {0})
  unfolding maybe_network_in
  maybe_network_chaos ctx host port = maybe_network_in ctx.chaos host port

  -- The context, and its cancel function; `none` is the one that does nothing.
  maybe_cancel_in : Option (Chaos W) → Context W → Exec W (Context W × Option ℕ)
  maybe_cancel_in none ctx = pure (ctx, none)
  maybe_cancel_in (some chaos) ctx = elim chaos.cancellation_func [
    | none ↦ pure (ctx, none)
    | some provider ↦ h.get_chaos_context provider ctx >>= λ r. pure (r.0, some r.1)
  ]

  unfoldable pub maybe_cancel_context : Context W → Exec W (Context W × Option ℕ)
  unfolding maybe_cancel_in
  maybe_cancel_context ctx = maybe_cancel_in ctx.chaos ctx

  apply_in : Option (Chaos W) → Context W → Str → Exec W Bool
  apply_in none ctx name = pure false
  apply_in (some chaos) ctx name = elim (Dict.find name chaos.providers) [
    | none ↦ pure false
    | some r ↦ h.apply r ctx
  ]

  unfoldable pub apply_chaos : Context W → Str → Exec W Bool
  unfolding apply_in Dict.find
  apply_chaos ctx name = apply_in ctx.chaos ctx name

  unfoldable pub register_provider : Chaos W → ℕ → Chaos W
  unfolding Dict.put
  register_provider chaos ref = record chaos {
    providers = Dict.put (h.provider_name ref) ref chaos.providers;
  }

unfoldable pub get_provider : {W : Type 0} → Chaos W → Str → Option ℕ
unfolding Dict.find
get_provider chaos name = Dict.find name chaos.providers
