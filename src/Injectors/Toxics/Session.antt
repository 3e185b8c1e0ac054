-- ===== src/Injectors/Toxics/Session.antt =====
-- The toxics of the server over any sequence of calls of one injector (injectors/network.go).
use chaoskit.Prelude.{ℕ, ◌≡◌, refl, ◌∙◌, ap, fun_ext, Bool, true, false, Option, none, some, arith}
use chaoskit.Prelude.Int.{ℤ}
use chaoskit.Text.{Str}
use chaoskit.Text.Search.{str_eq_refl, str_eq_iff}
use chaoskit.Dict.{Dict}
use chaoskit.Errors.{Error}
use chaoskit.Platform.{Platform}
use chaoskit.Injectors.Client.{Answer, given, failed, Toxiproxy, ToxicLaws, OnAnswer, changed}
use chaoskit.Injectors.Toxics.{
  Toxic, inject_toxic, stop_toxic, inject_unless, stop_unless, add_to, added, remove_from, removed,
}

changed_self : (r : ℕ) (n : Str) (b : Bool) (f : ℕ → Str → Bool) → changed r n b f r n ≡ b
changed_self r n b f = ground (arith, str_eq_refl n)

changed_back :
    (r : ℕ) (n : Str) (f : ℕ → Str → Bool)
    → f r n ≡ false
    → changed r n false (changed r n true f) ≡ f
changed_back r n f h = fun_ext λ q. fun_ext λ m. ground (arith, str_eq_iff m n)

module _ (p : Platform) {W : Type 0} (c : Toxiproxy p.Float W) (laws : ToxicLaws c)
    (before : ℕ → Str → Bool) (r : ℕ) (n : Str) where
  open laws use {has_toxic, ref_of}

  -- The server has the toxics from before, or those and the injector's own.
  pub data Table (t : Toxic) (w : W) : Type 0 where
    without : has_toxic w ≡ before → Table t w
    together :
        t.stopped ≡ false → t.proxy ≡ some r → has_toxic w ≡ changed r n true before → Table t w

  pub record Session (t : Toxic) (w : W) : Type 0 where
    pub toxic_named : t.toxic_name ≡ n
    pub proxy_named : ref_of t.proxy_name ≡ r
    pub proxy_is : (q : ℕ) → t.proxy ≡ some q → q ≡ r
    pub table : Table t w

  abbrev pub Left : (Option Error × Toxic) × W → Type 0
  Left x = Session x.0.1 x.1

  -- A call that leaves the toxics alone.
  same-Table : (t : Toxic) (w w' : W) → has_toxic w' ≡ has_toxic w → Table t w → Table t w'
  same-Table t w w' e (without h) = without (e ∙ h)
  same-Table t w w' e (together a b h) = together a b (e ∙ h)

  moved : (t : Toxic) (w w' : W) → has_toxic w' ≡ has_toxic w → Session t w → Session t w'
  moved t w w' e s = record {
    toxic_named = s.toxic_named;
    proxy_named = s.proxy_named;
    proxy_is = s.proxy_is;
    table = same-Table t w w' e s.table;
  }

  abbrev bound : Toxic → Toxic
  bound t = record t { proxy = some r }

  with_proxy : (t : Toxic) (w w' : W) → Session t w → Table (bound t) w' → Session (bound t) w'
  with_proxy t w w' s k = record {
    toxic_named = s.toxic_named;
    proxy_named = s.proxy_named;
    proxy_is = λ q e. cc;
    table = k;
  }

  bound-Table : (t : Toxic) (w : W) → Table t w → Table (bound t) w
  bound-Table t w (without h) = without h
  bound-Table t w (together a b h) = together a refl h

  -- AddToxic succeeds only on the toxics from before.
  now_together :
      (t : Toxic) (w w' : W)
      → t.stopped ≡ false
      → has_toxic w r n ≡ false
      → has_toxic w' ≡ changed r n true (has_toxic w)
      → Table t w
      → Table (bound t) w'
  now_together t w w' live free e (without h) = together live refl (e ∙ ap (changed r n true) h)
  now_together t w w' live free e (together a b h) =
      absurd (cc (ap (λ f. f r n) h, changed_self r n true before))

  added-Session :
      (kind m : Str) (t : Toxic) (w w' : W) (o : Option Error)
      → m ≡ n
      → t.stopped ≡ false
      → OnAnswer o
          ((has_toxic w r m ≡ false) × (has_toxic w' ≡ changed r m true (has_toxic w)))
          (has_toxic w' ≡ has_toxic w)
      → Session t w
      → Session (added p c kind r t o).1 w'
  unfolding added
  added-Session kind m t w w' none q live (free, e) s =
      with_proxy t w w' s (now_together t w w' live (rw q at free) (rw q at e) s.table)
  added-Session kind m t w w' (some x) q live e s =
      with_proxy t w w' s (bound-Table t w' (same-Table t w w' e s.table))

  add_to-Session :
      (kind : Str) (attributes : Dict ℤ) (t : Toxic) (w : W) (a : Answer ℕ)
      → t.stopped ≡ false
      → ((q : ℕ) → a ≡ given q → q ≡ r)
      → Session t w
      → Left (add_to p c kind attributes t a w)
  unfolding add_to
  add_to-Session kind attributes t w (failed e) live found s = s
  add_to-Session kind attributes t w (given q) live found s = rw (found q refl) (
      added-Session kind t.toxic_name t w _ _ s.toxic_named live
        (laws.add_toxic_lem w r t.toxic_name kind _ _ attributes) s)

  inject-Session :
      (kind : Str) (attributes : Dict ℤ) (b : Bool) (t : Toxic) (w : W)
      → t.stopped ≡ b
      → Session t w
      → Left (inject_unless p c b kind attributes t w)
  unfolding inject_unless
  inject-Session kind attributes true t w e s = s
  inject-Session kind attributes false t w e s =
      add_to-Session kind attributes t _ _ e
        (λ q a. laws.proxy_ref w t.proxy_name q a ∙ s.proxy_named)
        (moved t w _ (laws.proxy_keeps w t.proxy_name) s)

  -- What Stop leaves: the session, and the toxics from before unless it answered an error.
  abbrev pub Stopped : (Option Error × Toxic) × W → Type 0
  Stopped x = Left x × (x.0.0 ≡ none → has_toxic x.1 ≡ before)

  cleared :
      (t : Toxic) (w w' : W)
      → has_toxic w r n ≡ true
      → has_toxic w' ≡ changed r n false (has_toxic w)
      → before r n ≡ false
      → Table t w
      → has_toxic w' ≡ before
  cleared t w w' there e free (without h) = absurd (cc (ap (λ f. f r n) h))
  cleared t w w' there e free (together a b h) =
      e ∙ (ap (changed r n false) h ∙ changed_back r n before free)

  removed-Stopped :
      (m : Str) (t : Toxic) (w w' : W) (o : Option Error)
      → m ≡ n
      → before r n ≡ false
      → OnAnswer o
          ((has_toxic w r m ≡ true) × (has_toxic w' ≡ changed r m false (has_toxic w)))
          (has_toxic w' ≡ has_toxic w)
      → Session t w
      → Stopped (removed p c t o, w')
  unfolding removed
  removed-Stopped m t w w' none q free (there, e) s =
      let back = cleared t w w' (rw q at there) (rw q at e) free s.table in
      (
        record {
          toxic_named = s.toxic_named;
          proxy_named = s.proxy_named;
          proxy_is = s.proxy_is;
          table = without back;
        },
        λ _. back,
      )
  removed-Stopped m t w w' (some x) q free e s = (moved t w w' e s, λ d. cc)

  unbound : (t : Toxic) (w : W) → t.proxy ≡ none → Table t w → has_toxic w ≡ before
  unbound t w e (without h) = h
  unbound t w e (together a b h) = cc

  ended : (t : Toxic) (w : W) → t.stopped ≡ true → Table t w → has_toxic w ≡ before
  ended t w e (without h) = h
  ended t w e (together a b h) = cc

  remove_from-Stopped :
      (t : Toxic) (w : W) (o : Option ℕ)
      → t.proxy ≡ o
      → before r n ≡ false
      → Session t w
      → Stopped (remove_from p c t o w)
  unfolding remove_from
  remove_from-Stopped t w none e free s = (s, λ _. unbound t w e s.table)
  remove_from-Stopped t w (some q) e free s = rw (s.proxy_is q e) (
      removed-Stopped t.toxic_name t w _ _ s.toxic_named free
        (laws.remove_toxic_lem w r t.toxic_name) s)

  stop-Stopped :
      (b : Bool) (t : Toxic) (w : W)
      → t.stopped ≡ b
      → before r n ≡ false
      → Session t w
      → Stopped (stop_unless p c b t w)
  unfolding stop_unless
  stop-Stopped true t w e free s = (s, λ _. ended t w e s.table)
  stop-Stopped false t w e free s = remove_from-Stopped t w t.proxy refl free s

  pub inject_toxic-Session :
      (kind : Str) (attributes : Dict ℤ) (t : Toxic) (w : W)
      → Session t w
      → Left (inject_toxic p c kind attributes t w)
  unfolding inject_toxic
  inject_toxic-Session kind attributes t w s = inject-Session kind attributes t.stopped t w refl s

  pub stop_toxic-Stopped :
      (t : Toxic) (w : W) → before r n ≡ false → Session t w → Stopped (stop_toxic p c t w)
  unfolding stop_toxic
  stop_toxic-Stopped t w free s = stop-Stopped t.stopped t w refl free s
