-- ===== src/Injectors/Proxies.antt =====
-- injectors/network.go: ToxiProxyManager, the proxies that the program has created. `order` is the
-- order in which Go walks the manager's map.
pub mod Promises
pub mod Tracking
pub mod Refinement
use chaoskit.Prelude.{
  ℕ, Bool, true, false, Option, none, some, List, [], ◌∷◌, ◌++◌, map, ltb, length, if◌then◌else◌,
}
use chaoskit.Text.{Str, codes, join}
use chaoskit.Dict.{Dict, find, put, delete}
use chaoskit.Errors.{Error, plain, wrapped, message}
use chaoskit.Injectors.Client.{Answer, given, failed, Call, ◌>>=◌, done, Toxiproxy}

pub record ProxyConfig : Type 0 where
  pub name : Str
  pub listen : Str
  pub upstream : Str
  pub enabled : Bool

pub record ToxiproxyManager : Type 0 where
  pub proxies : Dict ℕ

unfoldable pub new_manager : ToxiproxyManager
new_manager = record { proxies = [] }

abbrev pub not_found : Str → Error
not_found name = plain (codes "proxy " ++ name ++ codes " not found")

abbrev delete_failed : Str → Error → Error
delete_failed name e = wrapped (codes "failed to delete proxy " ++ name ++ codes ": ") e

module _ {Float W : Type 0} (c : Toxiproxy Float W) where
  enabled_proxy :
      ProxyConfig → ToxiproxyManager → ℕ → Option Error → Option Error × ToxiproxyManager
  enabled_proxy cfg m proxy none = (none, record { proxies = put cfg.name proxy m.proxies })
  enabled_proxy cfg m proxy (some e) =
      (some (wrapped (codes "failed to enable proxy " ++ cfg.name ++ codes ": ") e), m)

  created_proxy :
      ProxyConfig → ToxiproxyManager → Answer ℕ → Call W (Option Error × ToxiproxyManager)
  unfolding enabled_proxy
  created_proxy cfg m (failed e) =
      done (some (wrapped (codes "failed to create proxy " ++ cfg.name ++ codes ": ") e), m)
  created_proxy cfg m (given proxy) = (if cfg.enabled then c.enable proxy else done none) >>= λ o.
      done (enabled_proxy cfg m proxy o)

  unfoldable pub create_proxy :
      ProxyConfig → ToxiproxyManager → Call W (Option Error × ToxiproxyManager)
  unfolding created_proxy
  create_proxy cfg m = c.create_proxy cfg.name cfg.listen cfg.upstream >>= created_proxy cfg m

  deleted_proxy : Str → ToxiproxyManager → Option Error → Option Error × ToxiproxyManager
  deleted_proxy name m none = (none, record { proxies = delete name m.proxies })
  deleted_proxy name m (some e) = (some (delete_failed name e), m)

  delete_found : Str → ToxiproxyManager → Option ℕ → Call W (Option Error × ToxiproxyManager)
  unfolding deleted_proxy
  delete_found name m none = done (some (not_found name), m)
  delete_found name m (some proxy) = c.delete proxy >>= λ o. done (deleted_proxy name m o)

  unfoldable pub delete_proxy : Str → ToxiproxyManager → Call W (Option Error × ToxiproxyManager)
  unfolding delete_found
  delete_proxy name m = delete_found name m (find name m.proxies)

  answer_of : Str → Option ℕ → Answer ℕ
  answer_of name none = failed (not_found name)
  answer_of name (some proxy) = given proxy

  unfoldable pub get_proxy : Str → ToxiproxyManager → Answer ℕ
  unfolding answer_of
  get_proxy name m = answer_of name (find name m.proxies)

  noted : Str → Option Error → List Error → List Error
  noted name none errs = errs
  noted name (some e) errs = delete_failed name e ∷ errs

  -- The loop of CleanupAll, with the errors that it collects.
  unfoldable pub cleanup_each : List (Str × ℕ) → Call W (List Error)
  unfolding noted
  cleanup_each [] = done []
  cleanup_each ((name, proxy) ∷ rest) =
      c.delete proxy >>= λ o. (cleanup_each rest >>= λ errs. done (noted name o errs))

  -- %v of a slice of errors
  unfoldable pub cleanup_error : List Error → Option Error
  cleanup_error [] = none
  cleanup_error (e ∷ es) = some (
      plain
        (codes "errors during cleanup: [" ++ join (map message (e ∷ es)) (codes " ") ++ codes "]"))

  module _ (order : Dict ℕ → List (Str × ℕ)) where
    unfoldable pub cleanup_all : ToxiproxyManager → Call W (Option Error × ToxiproxyManager)
    unfolding cleanup_each cleanup_error
    cleanup_all m = cleanup_each (order m.proxies) >>= λ errs.
        done (cleanup_error errs, record { proxies = [] })

    unfoldable pub list_proxies : ToxiproxyManager → List Str
    list_proxies m = map (λ (e : Str × ℕ). e.0) (order m.proxies)
