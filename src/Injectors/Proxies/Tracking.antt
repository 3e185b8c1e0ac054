-- ===== src/Injectors/Proxies/Tracking.antt =====
-- ToxiProxyManager keeps its promises, call by call (injectors/network.go).
use chaoskit.Prelude.{
  subst, ℕ, ◌≡◌, refl, sym, ◌∙◌, ap, fun_ext, Bool, true, false, Bool-cases, inl, inr, Option, none,
  some, Option-cases, if◌then◌else◌, arith, ◌≢◌, ◌⊎◌,
}
use chaoskit.Text.{Str, str_eq}
use chaoskit.Text.Search.{str_eq_iff}
use chaoskit.Dict.{Dict, find, put, delete, find-put, find-delete}
use chaoskit.Errors.{Error}
use chaoskit.Injectors.Client.{
  Answer, given, failed, Call, done, Toxiproxy, OnAnswer, OnCreated, mark, ProxyLaws,
}
use chaoskit.Injectors.Proxies.{
  ProxyConfig, ToxiproxyManager, create_proxy, created_proxy, enabled_proxy, delete_proxy,
  delete_found, deleted_proxy, get_proxy, answer_of,
}
use chaoskit.Injectors.Proxies.Promises.{ManagerCall, create, remove, get, Reply, View, Promise}

module _ {Float W : Type 0} (c : Toxiproxy Float W) (laws : ProxyLaws c) where
  open laws use {alive, name_of}

  -- Every proxy that the manager holds is alive under its name.
  abbrev pub Tracks : ToxiproxyManager → W → Type 0
  Tracks m w = (n : Str) (r : ℕ) → find n m.proxies ≡ some r → (alive w r ≡ true) × (name_of r ≡ n)

  abbrev pub view : ToxiproxyManager → W → View
  view m w = record { owned = λ n. find n m.proxies; alive = alive w }

  -- A step to the manager and the server of `x`.
  abbrev pub Kept :
      ToxiproxyManager → W → ManagerCall → (Option Error × ToxiproxyManager) × W → Type 0
  Kept m w k x = Promise (view m w) (view x.0.1 x.1) k (Reply.error x.0.0) × Tracks x.0.1 x.1

  Tracks-same : (m : ToxiproxyManager) (w w' : W) → alive w' ≡ alive w → Tracks m w → Tracks m w'
  Tracks-same m w w' e t n r f = (ap (λ g. g r) e ∙ (t n r f).0, (t n r f).1)

  mark_stays : (r s : ℕ) (f g : ℕ → Bool) → g ≡ mark r true f → f s ≡ true → g s ≡ true
  mark_stays r s f g e h = ap (λ k. k s) e ∙ (ground arith)

  Tracks-more :
      (m : ToxiproxyManager) (w w' : W) (r : ℕ)
      → alive w' ≡ mark r true (alive w)
      → Tracks m w
      → Tracks m w'
  Tracks-more m w w' r e t n s f = (mark_stays r s (alive w) (alive w') e (t n s f).0, (t n s f).1)

  some_inj : {s r : ℕ} → some s ≡ some r → s ≡ r
  some_inj e = cc

  -- The entries of a map with one more, and with one less.
  put_cases :
      (n j : Str) (r s : ℕ) (m : Dict ℕ)
      → find j (put n r m) ≡ some s
      → ((n ≡ j) × (r ≡ s)) ⊎ (find j m ≡ some s)
  put_cases n j r s m f = elim (Bool-cases (str_eq n j)) [
    | inl e ↦ inl ((str_eq_iff n j).0 e, some_inj (sym (rw e at (find-put j n r m)) ∙ f))
    | inr e ↦ inr (sym (rw e at (find-put j n r m)) ∙ f)
  ]

  delete_cases :
      (n j : Str) (s : ℕ) (m : Dict ℕ)
      → find j (delete n m) ≡ some s
      → (n ≢ j) × (find j m ≡ some s)
  delete_cases n j s m f = elim (Bool-cases (str_eq n j)) [
    | inl e ↦ absurd (cc (rw e at (find-delete j n m)))
    | inr e ↦ (λ q. cc ((str_eq_iff n j).1 q), sym (rw e at (find-delete j n m)) ∙ f)
  ]

  Tracks-put :
      (m : ToxiproxyManager) (w w' : W) (n : Str) (r : ℕ)
      → name_of r ≡ n
      → alive w' ≡ mark r true (alive w)
      → Tracks m w
      → Tracks (record { proxies = put n r m.proxies }) w'
  Tracks-put m w w' n r named e t j s f = elim (put_cases n j r s m.proxies f) [
    | inl (p, q) ↦ (
      subst (λ x. alive w' x ≡ true) q (ap (λ g. g r) e ∙ ground arith),
      ap name_of (sym q) ∙ (named ∙ p),
    )
    | inr g ↦ Tracks-more m w w' r e t j s g
  ]

  Tracks-delete :
      (m : ToxiproxyManager) (w w' : W) (n : Str) (r : ℕ)
      → name_of r ≡ n
      → alive w' ≡ mark r false (alive w)
      → Tracks m w
      → Tracks (record { proxies = delete n m.proxies }) w'
  Tracks-delete m w w' n r named e t j s f =
      let (other, g) = delete_cases n j s m.proxies f in
      let (lives, called) = t j s g in
      let differs : s ≢ r = λ q. other (sym named ∙ (ap name_of (sym q) ∙ called)) in
      (ap (λ h. h s) e ∙ (ground arith), called)

  unowned :
      (m : ToxiproxyManager) (w : W) (n : Str)
      → ((s : ℕ) → alive w s ≡ true → name_of s ≢ n)
      → Tracks m w
      → find n m.proxies ≡ none
  unowned m w n free t = elim (Option-cases (find n m.proxies)) [
    | inl e ↦ e
    | inr (s, e) ↦ let (lives, called) = t n s e in absurd (free s lives called)
  ]

  enabled-Kept :
      (cfg : ProxyConfig) (m : ToxiproxyManager) (w w' : W) (r : ℕ) (o : Option Error)
      → name_of r ≡ cfg.name
      → ((s : ℕ) → alive w s ≡ true → name_of s ≢ cfg.name)
      → alive w' ≡ mark r true (alive w)
      → (o ≡ none) ⊎ (cfg.enabled ≡ true)
      → Tracks m w
      → Kept m w (create cfg) (enabled_proxy c cfg m r o, w')
  unfolding enabled_proxy
  enabled-Kept cfg m w w' r none named free e d t = (
    Promise.created cfg r (unowned m w cfg.name free t)
        (fun_ext λ j. find-put j cfg.name r m.proxies) e,
    Tracks-put m w w' cfg.name r named e t,
  )
  enabled-Kept cfg m w w' r (some x) named free e (inl d) t = cc
  enabled-Kept cfg m w w' r (some x) named free e (inr d) t =
      (Promise.leaked cfg _ r d refl e, Tracks-more m w w' r e t)

  if_enabled : Bool → ℕ → Call W (Option Error)
  if_enabled b r = if b then c.enable r else done none

  enabling :
      (b : Bool) (r : ℕ) (w : W)
      → (alive (if_enabled b r w).1 ≡ alive w) × (((if_enabled b r w).0 ≡ none) ⊎ (b ≡ true))
  unfolding if_enabled
  enabling true r w = (laws.enable_lem w r, inr refl)
  enabling false r w = (refl, inl refl)

  created-Kept :
      (cfg : ProxyConfig) (m : ToxiproxyManager) (w w' : W) (a : Answer ℕ)
      → OnCreated a
          (λ r.
            (name_of r ≡ cfg.name)
            × ((s : ℕ) → alive w s ≡ true → name_of s ≢ cfg.name)
            × (alive w' ≡ mark r true (alive w)))
          (alive w' ≡ alive w)
      → Tracks m w
      → Kept m w (create cfg) (created_proxy c cfg m a w')
  unfolding created_proxy if_enabled
  created-Kept cfg m w w' (failed x) e t = (Promise.refused cfg _ refl e, Tracks-same m w w' e t)
  created-Kept cfg m w w' (given r) (named, free, e) t =
      let (same, d) = enabling cfg.enabled r w' in
      enabled-Kept cfg m w _ r _ named free (same ∙ e) d t

  pub create-Kept :
      (cfg : ProxyConfig) (m : ToxiproxyManager) (w : W)
      → Tracks m w
      → Kept m w (create cfg) (create_proxy c cfg m w)
  unfolding create_proxy
  create-Kept cfg m w t =
      created-Kept cfg m w _ _ (laws.create_lem w cfg.name cfg.listen cfg.upstream) t

  deleted-Kept :
      (n : Str) (m : ToxiproxyManager) (w w' : W) (r : ℕ) (o : Option Error)
      → find n m.proxies ≡ some r
      → OnAnswer o (alive w' ≡ mark r false (alive w)) (alive w' ≡ alive w)
      → Tracks m w
      → Kept m w (remove n) (deleted_proxy c n m o, w')
  unfolding deleted_proxy
  deleted-Kept n m w w' r none f e t = (
    Promise.removed n r f (fun_ext λ j. find-delete j n m.proxies) e,
    Tracks-delete m w w' n r (t n r f).1 e t,
  )
  deleted-Kept n m w w' r (some x) f e t = (Promise.kept n _ refl e, Tracks-same m w w' e t)

  delete_found-Kept :
      (n : Str) (m : ToxiproxyManager) (w : W) (o : Option ℕ)
      → find n m.proxies ≡ o
      → Tracks m w
      → Kept m w (remove n) (delete_found c n m o w)
  unfolding delete_found
  delete_found-Kept n m w none f t = (Promise.kept n _ refl refl, t)
  delete_found-Kept n m w (some r) f t = deleted-Kept n m w _ r _ f (laws.delete_lem w r) t

  get-Promise :
      (n : Str) (m : ToxiproxyManager) (w : W) (o : Option ℕ)
      → find n m.proxies ≡ o
      → Promise (view m w) (view m w) (get n) (Reply.proxy (answer_of c n o))
  unfolding answer_of
  get-Promise n m w none f = Promise.missing n f refl
  get-Promise n m w (some r) f = Promise.found n r f refl

  pub delete-Kept :
      (n : Str) (m : ToxiproxyManager) (w : W)
      → Tracks m w
      → Kept m w (remove n) (delete_proxy c n m w)
  unfolding delete_proxy
  delete-Kept n m w t = delete_found-Kept n m w (find n m.proxies) refl t

  pub get_proxy-Promise :
      (n : Str) (m : ToxiproxyManager) (w : W)
      → Promise (view m w) (view m w) (get n) (Reply.proxy (get_proxy c n m))
  unfolding get_proxy
  get_proxy-Promise n m w = get-Promise n m w (find n m.proxies) refl
