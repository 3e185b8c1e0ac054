-- ===== src/Injectors/Proxies/Promises.antt =====
-- What ToxiProxyManager promises (injectors/network.go): an abstract machine over the names that a
-- manager owns and the proxies that are alive at the server.
use chaoskit.Prelude.{ℕ, ◌≡◌, Bool, true, false, Option, none, some, List, [], ◌∷◌, if◌then◌else◌}
use chaoskit.Text.{Str, str_eq}
use chaoskit.Errors.{Error}
use chaoskit.Injectors.Client.{Answer, given, failed, mark}
use chaoskit.Injectors.Proxies.{ProxyConfig, not_found}

pub data ManagerCall : Type 0 where
  create : ProxyConfig → ManagerCall
  remove : Str → ManagerCall
  get : Str → ManagerCall
  cleanup : ManagerCall

pub data Reply : Type 0 where
  error : Option Error → Reply
  proxy : Answer ℕ → Reply

pub record View : Type 0 where
  pub owned : Str → Option ℕ
  pub alive : ℕ → Bool

abbrev pub update : Str → Option ℕ → (Str → Option ℕ) → Str → Option ℕ
update n o f j = if str_eq n j then o else f j

-- One call on the view `a`, its reply, and the view `b` that it leaves.
pub data Promise (a b : View) : ManagerCall → Reply → Type 0 where
  -- Only a name that is not owned can be created, and the new proxy is owned and alive.
  created :
      (cfg : ProxyConfig) (r : ℕ)
      → a.owned cfg.name ≡ none
      → b.owned ≡ update cfg.name (some r) a.owned
      → b.alive ≡ mark r true a.alive
      → Promise a b (create cfg) (error none)
  refused :
      (cfg : ProxyConfig) (e : Error)
      → b.owned ≡ a.owned
      → b.alive ≡ a.alive
      → Promise a b (create cfg) (error (some e))
  -- Where the new proxy cannot be enabled it stays at the server, and nobody owns it.
  leaked :
      (cfg : ProxyConfig) (e : Error) (r : ℕ)
      → cfg.enabled ≡ true
      → b.owned ≡ a.owned
      → b.alive ≡ mark r true a.alive
      → Promise a b (create cfg) (error (some e))
  removed :
      (n : Str) (r : ℕ)
      → a.owned n ≡ some r
      → b.owned ≡ update n none a.owned
      → b.alive ≡ mark r false a.alive
      → Promise a b (remove n) (error none)
  kept :
      (n : Str) (e : Error)
      → b.owned ≡ a.owned
      → b.alive ≡ a.alive
      → Promise a b (remove n) (error (some e))
  found : (n : Str) (r : ℕ) → a.owned n ≡ some r → b ≡ a → Promise a b (get n) (proxy (given r))
  missing :
      (n : Str) → a.owned n ≡ none → b ≡ a → Promise a b (get n) (proxy (failed (not_found n)))
  -- A clean-up without an error leaves none of the owned proxies alive; it always forgets them all.
  cleaned :
      ((n : Str) (r : ℕ) → a.owned n ≡ some r → b.alive r ≡ false)
      → b.owned ≡ (λ n. none)
      → Promise a b cleanup (error none)
  forgotten : (e : Error) → b.owned ≡ (λ n. none) → Promise a b cleanup (error (some e))

-- A sequence of calls with their replies.
pub data Follows : View → List (ManagerCall × Reply) → View → Type 0 where
  stays : (a : View) → Follows a [] a
  goes :
      (a b c : View) (k : ManagerCall) (r : Reply) (log : List (ManagerCall × Reply))
      → Promise a b k r
      → Follows b log c
      → Follows a ((k, r) ∷ log) c
