-- ===== src/Injectors/Cancellation/Settled.antt =====
-- Which contexts are live while ContextCancellationInjector runs, and after it is stopped
-- (injectors/context_cancellation.go).
use chaoskit.Prelude.{
  ℕ, ◌+◌, ◌-◌, ◌<◌, ◌==◌, ==_iff, ◌≡◌, refl, sym, ◌∙◌, ap, subst, ◌&&◌, ◌||◌, not, Bool, Bool-cases,
  inl, inr, true, false, List, [], ◌∷◌, arith, ltb, length, if◌then◌else◌,
}
use chaoskit.Injectors.Cancellation.{
  ContextCancellationInjector, elem, without, cancel_each, stop_cancellations, stopped_now, track,
  untrack, toss,
}
use chaoskit.Injectors.Cancellation.Calls.{System, Step, Reach, here, next, started, is_busy}

elem-without : (m n : ℕ) (xs : List ℕ) → elem m (without n xs) ≡ (not (n == m) && elem m xs)
unfolding elem without
elem-without m n [] = ground arith
elem-without m n (x ∷ xs) = ground (arith, elem-without m n xs)

apart :
    (m t : ℕ) (live : List ℕ) → elem t live ≡ false → elem m live ≡ (elem m live && not (t == m))
apart m t live e = elim (Bool-cases (t == m)) [
  | inl q ↦ let same : t ≡ m = (==_iff t m).0 q in rw (q, sym (ap (λ x. elem x live) same) ∙ e) refl
  | inr q ↦ rw q (ground arith)
]

elem-cancel_one :
    (m t : ℕ) (live : List ℕ)
    → elem m (if elem t live then without t live else live) ≡ (elem m live && not (t == m))
elem-cancel_one m t live = elim (Bool-cases (elem t live)) [
  | inl e ↦ rw e (ground (arith, elem-without m t live))
  | inr e ↦ rw e (apart m t live e)
]

elem-cancel_each :
    (m : ℕ) (ts live : List ℕ) → elem m (cancel_each ts live) ≡ (elem m live && not (elem m ts))
unfolding cancel_each elem
elem-cancel_each m [] live = ground arith
elem-cancel_each m (t ∷ ts) live =
    elem-cancel_each m ts _ ∙ ground (arith, elem-cancel_one m t live)

in_nothing : (m : ℕ) → elem m [] ≡ true → ⊥
unfolding elem
in_nothing m q = absurd (cc q)

none_left : (xs : List ℕ) → ((n : ℕ) → elem n xs ≡ false) → xs ≡ []
unfolding elem
none_left [] h = refl
none_left (x ∷ xs) h = ground (arith, h x)

module _ {Float : Type 0} where
  -- Every live context is tracked, or on its way to be; and where Stop overtook no call, nothing is
  -- live afterwards, and no call is on its way.
  pub record Sound (s : System Float) : Type 0 where
    pub covered :
        (n : ℕ) → elem n s.live ≡ true → (elem n s.injector.cancellations || elem n s.hands) ≡ true
    pub settled :
        s.injector.stopped ≡ true
        → s.overtaken ≡ false
        → (s.live ≡ []) × (s.readers ≡ 0) × (s.hands ≡ [])

  stop_running :
      (b : Bool) (c : ContextCancellationInjector Float) (live : List ℕ)
      → b ≡ false
      → c.stopped ≡ b
      → stop_cancellations c live ≡ (stopped_now c, cancel_each c.cancellations live)
  unfolding stop_cancellations
  stop_running b c live e q = rw (q ∙ e) refl

  stop_stopped :
      (c : ContextCancellationInjector Float) (live : List ℕ)
      → c.stopped ≡ true
      → stop_cancellations c live ≡ (c, live)
  unfolding stop_cancellations
  stop_stopped c live e = rw e refl

  reads-Sound :
      (s : System Float)
      → s.injector.stopped ≡ false
      → Sound s
      → Sound (record s { readers = s.readers + 1 })
  reads-Sound s run o = record { covered = o.covered; settled = λ e q. cc }

  makes-Sound :
      (s : System Float) (n : ℕ)
      → 0 < s.readers
      → Sound s
      → Sound (record s { readers = s.readers - 1; live = n ∷ s.live; hands = n ∷ s.hands })
  unfolding elem
  makes-Sound s n busy o = record {
    covered = λ m e. ground (arith, o.covered m);
    settled = λ e q. let (l, r, h) = o.settled e q in absurd (omega (arith, r));
  }

  tracks-Sound :
      (s : System Float) (n : ℕ) (hit : Bool)
      → elem n s.hands ≡ true
      → Sound s
      → Sound (record s { hands = without n s.hands; injector = toss hit (track n s.injector) })
  unfolding elem toss track
  tracks-Sound s n hit held o = record {
    covered = λ m e. ground (arith, o.covered m e, elem-without m n s.hands);
    settled = λ e q. let (l, r, h) = o.settled e q in absurd (cc (held, ap (λ x. elem n x) h));
  }

  ends-Sound : (s : System Float) (n : ℕ) → Sound s → Sound (record s { live = without n s.live })
  unfolding without
  ends-Sound s n o = record {
    covered = λ m e. o.covered m (ground (arith, elem-without m n s.live));
    settled = λ e q. let (l, r, h) = o.settled e q in (ap (without n) l, r, h);
  }

  untracks-Sound :
      (s : System Float) (n : ℕ)
      → elem n s.live ≡ false
      → Sound s
      → Sound (record s { injector = untrack n s.injector })
  unfolding untrack
  untracks-Sound s n gone o = record {
    covered = λ m e. elim (Bool-cases (n == m)) [
      | inl q ↦ absurd (cc (gone, e, ap (λ x. elem x s.live) ((==_iff n m).0 q)))
      | inr q ↦ ground (arith, o.covered m e, elem-without m n s.injector.cancellations)
    ];
    settled = o.settled;
  }

  abbrev with_stop : System Float → ContextCancellationInjector Float × List ℕ → System Float
  with_stop s x = record s { injector = x.0; live = x.1; overtaken = is_busy s }

  abbrev with_both : System Float → ContextCancellationInjector Float × List ℕ → System Float
  with_both s x = record s { injector = x.0; live = x.1 }

  not_busy : (s : System Float) → is_busy s ≡ false → (s.readers ≡ 0) × (s.hands ≡ [])
  not_busy s e = (ground arith, empty s.hands (ground arith))
    where
      empty : (l : List ℕ) → ltb 0 (length l) ≡ false → l ≡ []
      empty [] h = refl
      empty (x ∷ l) h = ground arith

  held_only :
      (s : System Float) (m : ℕ)
      → Sound s
      → elem m (cancel_each s.injector.cancellations s.live) ≡ true
      → elem m s.hands ≡ true
  held_only s m o e =
      let cut = elem-cancel_each m s.injector.cancellations s.live in
      ground (arith, cut, o.covered m)

  cleared :
      (s : System Float) → Sound s → s.hands ≡ [] → cancel_each s.injector.cancellations s.live ≡ []
  cleared s o h = none_left _ λ m.
      elim (Bool-cases (elem m (cancel_each s.injector.cancellations s.live))) [
        | inl e ↦ absurd (in_nothing m (ap (λ x. elem m x) (sym h) ∙ held_only s m o e))
        | inr e ↦ e
      ]

  stopping-Sound :
      (s : System Float)
      → Sound s
      → Sound (with_stop s (stopped_now s.injector, cancel_each s.injector.cancellations s.live))
  unfolding elem
  stopping-Sound s o = record {
    covered = λ m e. held_only s m o e;
    settled = λ e q. let (r, h) = not_busy s q in (cleared s o h, r, h);
  }

  Step-Sound : {s t : System Float} → Step s t → Sound s → Sound t
  Step-Sound {s} (Step.reads run) o = reads-Sound s run o
  Step-Sound {s} (Step.makes n busy free new) o = makes-Sound s n busy o
  Step-Sound {s} (Step.tracks n hit held) o = tracks-Sound s n hit held o
  Step-Sound {s} (Step.ends n) o = ends-Sound s n o
  Step-Sound {s} (Step.untracks n gone) o = untracks-Sound s n gone o
  Step-Sound {s} (Step.stops run) o =
      subst Sound (ap (with_stop s) (sym (stop_running false s.injector s.live refl run)))
        (stopping-Sound s o)
  Step-Sound {s} (Step.stops_again e) o =
      subst Sound (ap (with_both s) (sym (stop_stopped s.injector s.live e))) o

  Reach-Sound : {s t : System Float} → Sound s → Reach s t → Sound t
  Reach-Sound o here = o
  Reach-Sound o (next r st) = Step-Sound st (Reach-Sound o r)

  started-Sound : (c : ContextCancellationInjector Float) → c.stopped ≡ false → Sound (started c)
  unfolding elem
  started-Sound c run = record { covered = λ n e. cc; settled = λ e q. cc }

  -- In any interleaving of calls of a new injector, and of cancellations: once the injector is
  -- stopped, no context of its is live, no call is about to make one, and none is on its way into
  -- the map, unless Stop overtook a call of GetChaosContext between its two critical sections.
  pub Reach-settled :
      (c : ContextCancellationInjector Float) (s : System Float)
      → c.stopped ≡ false
      → Reach (started c) s
      → s.injector.stopped ≡ true
      → s.overtaken ≡ false
      → (s.live ≡ []) × (s.readers ≡ 0) × (s.hands ≡ [])
  Reach-settled c s run r ended quiet = (Reach-Sound (started-Sound c run) r).settled ended quiet
