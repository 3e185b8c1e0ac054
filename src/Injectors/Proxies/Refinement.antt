-- ===== src/Injectors/Proxies/Refinement.antt =====
-- ToxiProxyManager keeps its promises over any sequence of calls (injectors/network.go).
use chaoskit.Prelude.{
  ℕ, ◌≡◌, refl, ◌∙◌, ap, subst, Bool, false, Option, none, some, List, [], ◌∷◌, Any, arith, inl,
  inr,
}
use chaoskit.Text.{Str}
use chaoskit.Dict.{Dict, find}
use chaoskit.Errors.{Error}
use chaoskit.Injectors.Client.{Toxiproxy, OnAnswer, ProxyLaws, mark}
use chaoskit.Injectors.Proxies.{
  ToxiproxyManager, new_manager, create_proxy, delete_proxy, get_proxy, cleanup_all, cleanup_each,
  cleanup_error, noted,
}
use chaoskit.Injectors.Proxies.Promises.{
  ManagerCall, create, remove, get, cleanup, Reply, Promise, Follows,
}
use chaoskit.Injectors.Proxies.Tracking.{Tracks, view, create-Kept, delete-Kept, get_proxy-Promise}

-- The walk over the manager's map comes by every entry.
abbrev pub VisitsAll : (Dict ℕ → List (Str × ℕ)) → Type 0
VisitsAll order =
    (m : Dict ℕ) (n : Str) (r : ℕ) → find n m ≡ some r → Any (λ (e : Str × ℕ). e ≡ (n, r)) (order m)

module _ {Float W : Type 0} (c : Toxiproxy Float W) (order : Dict ℕ → List (Str × ℕ)) where
  -- One call of a method, and its reply.
  unfoldable pub step : ManagerCall → ToxiproxyManager → W → (Reply × ToxiproxyManager) × W
  step (create cfg) m w = let x = create_proxy c cfg m w in ((Reply.error x.0.0, x.0.1), x.1)
  step (remove n) m w = let x = delete_proxy c n m w in ((Reply.error x.0.0, x.0.1), x.1)
  step (get n) m w = ((Reply.proxy (get_proxy c n m), m), w)
  step cleanup m w = let x = cleanup_all c order m w in ((Reply.error x.0.0, x.0.1), x.1)

  -- A sequence of calls, with the log of their replies.
  unfoldable pub run_manager :
      List ManagerCall → ToxiproxyManager → W → (List (ManagerCall × Reply) × ToxiproxyManager) × W
  run_manager [] m w = (([], m), w)
  run_manager (k ∷ ks) m w =
      let x = step k m w in let y = run_manager ks x.0.1 x.1 in (((k, x.0.0) ∷ y.0.0, y.0.1), y.1)

module _ {Float W : Type 0} (c : Toxiproxy Float W) (laws : ProxyLaws c) where
  open laws use {alive}

  off : (r s : ℕ) (f g : ℕ → Bool) → g ≡ mark r false f → f s ≡ false → g s ≡ false
  off r s f g e h = ap (λ k. k s) e ∙ ground arith

  deleting-dead :
      (r s : ℕ) (w w' : W) (o : Option Error)
      → OnAnswer o (alive w' ≡ mark r false (alive w)) (alive w' ≡ alive w)
      → alive w s ≡ false
      → alive w' s ≡ false
  deleting-dead r s w w' none e h = off r s (alive w) (alive w') e h
  deleting-dead r s w w' (some x) e h = ap (λ k. k s) e ∙ h

  -- No deletion brings a proxy back.
  cleanup-dead :
      (es : List (Str × ℕ)) (w : W) (s : ℕ)
      → alive w s ≡ false
      → alive (cleanup_each c es w).1 s ≡ false
  unfolding cleanup_each
  cleanup-dead [] w s h = h
  cleanup-dead ((n, r) ∷ es) w s h =
      cleanup-dead es (c.delete r w).1 s (deleting-dead r s w _ _ (laws.delete_lem w r) h)

  noted-none :
      (n : Str) (o : Option Error) (errs : List Error)
      → noted c n o errs ≡ []
      → (o ≡ none) × (errs ≡ [])
  unfolding noted
  noted-none n none errs e = (refl, e)
  noted-none n (some x) errs e = cc

  deleted-dead :
      (r : ℕ) (w w' : W) (o : Option Error)
      → o ≡ none
      → OnAnswer o (alive w' ≡ mark r false (alive w)) (alive w' ≡ alive w)
      → alive w' r ≡ false
  deleted-dead r w w' none q e = ap (λ k. k r) e ∙ ground arith
  deleted-dead r w w' (some x) q e = cc

  -- A loop that collects no error leaves none of the proxies alive.
  cleanup_each-gone :
      (es : List (Str × ℕ)) (w : W)
      → (cleanup_each c es w).0 ≡ []
      → (n : Str) (r : ℕ) → Any (λ (e : Str × ℕ). e ≡ (n, r)) es
      → alive (cleanup_each c es w).1 r ≡ false
  unfolding cleanup_each
  cleanup_each-gone [] w q n r h = absurd h
  cleanup_each-gone ((m, s) ∷ es) w q n r (inl e) =
      let (quiet, rest) = noted-none m _ _ q in
      cleanup-dead es (c.delete s w).1 r (
        subst (λ x. alive (c.delete s w).1 x ≡ false) (ap (λ (x : Str × ℕ). x.1) e)
          (deleted-dead s w _ _ quiet (laws.delete_lem w s)))
  cleanup_each-gone ((m, s) ∷ es) w q n r (inr h) =
      let (quiet, rest) = noted-none m _ _ q in cleanup_each-gone es (c.delete s w).1 rest n r h

  module _ (order : Dict ℕ → List (Str × ℕ)) (visits : VisitsAll order) where
    concluded :
        (m : ToxiproxyManager) (w w' : W) (errs : List Error)
        → (errs ≡ [] → (n : Str) (r : ℕ) → find n m.proxies ≡ some r → alive w' r ≡ false)
        → Promise
            (view c laws m w)
            (view c laws new_manager w')
            cleanup
            (Reply.error (cleanup_error c errs))
    unfolding cleanup_error new_manager find
    concluded m w w' [] gone = Promise.cleaned (gone refl) refl
    concluded m w w' (e ∷ es) gone = Promise.forgotten _ refl

    cleanup-Promise :
        (m : ToxiproxyManager) (w : W)
        → Promise
            (view c laws m w)
            (view c laws new_manager (cleanup_all c order m w).1)
            cleanup
            (Reply.error (cleanup_all c order m w).0.0)
    unfolding cleanup_all
    cleanup-Promise m w =
        concluded m w _ _ λ q n r f. cleanup_each-gone _ w q n r (visits m.proxies n r f)

    new_manager-Tracks : (w : W) → Tracks c laws new_manager w
    unfolding new_manager find
    new_manager-Tracks w n r f = cc

    step-Kept :
        (k : ManagerCall) (m : ToxiproxyManager) (w : W)
        → Tracks c laws m w
        → Promise
            (view c laws m w)
            (view c laws (step c order k m w).0.1 (step c order k m w).1)
            k
            (step c order k m w).0.0
          × Tracks c laws (step c order k m w).0.1 (step c order k m w).1
    unfolding step cleanup_all new_manager
    step-Kept (create cfg) m w t = create-Kept c laws cfg m w t
    step-Kept (remove n) m w t = delete-Kept c laws n m w t
    step-Kept (get n) m w t = (get_proxy-Promise c laws n m w, t)
    step-Kept cleanup m w t = (cleanup-Promise m w, new_manager-Tracks _)

    run_refines :
        (ks : List ManagerCall) (m : ToxiproxyManager) (w : W)
        → Tracks c laws m w
        → Follows
            (view c laws m w)
            (run_manager c order ks m w).0.0
            (view c laws (run_manager c order ks m w).0.1 (run_manager c order ks m w).1)
          × Tracks c laws (run_manager c order ks m w).0.1 (run_manager c order ks m w).1
    unfolding run_manager
    run_refines [] m w t = (Follows.stays _, t)
    run_refines (k ∷ ks) m w t =
        let (p, t') = step-Kept k m w t in
        let (f, t'') = run_refines ks (step c order k m w).0.1 (step c order k m w).1 t' in
        (Follows.goes _ _ _ k _ _ p f, t'')

    -- Where nobody else changes the server, any sequence of calls of a new manager refines the
    -- abstract machine of Promises: each reply and each change to the owned names and the living
    -- proxies is one that a Promise allows. At the end, every owned proxy is alive under its name.
    pub run_manager-refines :
        (ks : List ManagerCall) (w : W)
        → Follows (view c laws new_manager w) (run_manager c order ks new_manager w).0.0 (
            view c laws
              (run_manager c order ks new_manager w).0.1
              (run_manager c order ks new_manager w).1)
          × Tracks c laws
              (run_manager c order ks new_manager w).0.1
              (run_manager c order ks new_manager w).1
    run_manager-refines ks w = run_refines ks new_manager w (new_manager-Tracks w)
