-- ===== src/Executor/Networks.antt =====
-- Which networks are up when Run is left (executor.go).
use chaoskit.Prelude.{
  ℕ, ◌≡◌, refl, sym, ap, ◌∙◌, subst, Bool, true, false, Option, none, some, List, [], ◌∷◌, ◌++◌,
  All, All-append, append_assoc, append-nil, if◌then◌else◌,
}
use chaoskit.Text.{codes}
use chaoskit.Errors.{Error, wrapped}
use chaoskit.Exec.{Outcome, returns, panics, pure, defer, continue, ◌>>=◌}
use chaoskit.Exec.Ensures.{
  Ensures, Leaves, Ensures-pure, Ensures-bind, Ensures-defer, Ensures-weaken, Ensures-if,
}
use chaoskit.Host.{Host, Context}
use chaoskit.Scenario.{Scenario}
use chaoskit.Executor.{State, FailurePolicy, call, all_injectors}
use chaoskit.Executor.Kept.{keep, keep_one, keep_none}
use chaoskit.Executor.Lifecycle.{call_ensures}
use chaoskit.Executor.Run.{setup_networks, teardown_networks, run_started, run_networked}

-- What a network injector promises. `Up l w`: in the world `w`, before the rest of the run, exactly
-- the networks of the injectors `l` are up, in this order of their set-up; `Left l w` says so of a
-- world that the rest of the run has left, in which the injectors are stopped. SetupNetwork sets its
-- network up unless it returns an error. TeardownNetwork of a stopped injector takes it down, or
-- leaves it up where the injector `sticks`. Neither panics.
pub record Settable {W : Type 0} (h : Host W) (ctx : Context W) (sticks : ℕ → Bool)
    (Up Left : List ℕ → W → Type 0) : Type 0 where
  pub sets_up :
      (i : ℕ) (l : List ℕ)
      → Ensures
          (Up l)
          (h.setup_network i ctx)
          (λ o. elim o [ none ↦ Up (l ++ i ∷ []) | some _ ↦ Up l ])
          (λ _. ⊥)
  pub tears_down :
      (i : ℕ) (before l : List ℕ)
      → All (λ j. sticks j ≡ true) before
      → Ensures
          (Left (before ++ i ∷ l))
          (h.teardown_network i ctx)
          (λ _. Left (before ++ (if sticks i then i ∷ l else l)))
          (λ _. ⊥)

module _ {W : Type 0} (h : Host W) (ctx : Context W) (sticks : ℕ → Bool)
    (Up Left : List ℕ → W → Type 0) (settable : Settable h ctx sticks Up Left) where
  abbrev AllNetworks : List ℕ → Type 0
  AllNetworks = All (λ i. h.is_network i ≡ true)

  abbrev AllStick : List ℕ → Type 0
  AllStick = All (λ i. sticks i ≡ true)

  -- One network is torn down, and then the others.
  teardown_next :
      (b : Bool) (i : ℕ) (before l : List ℕ)
      → sticks i ≡ b
      → AllStick before
      → ((k : List ℕ)
          → AllStick k
          → Ensures
              (Left (k ++ l))
              (teardown_networks h ctx l)
              (λ _. Left (k ++ keep sticks l))
              (λ _. ⊥))
      → Ensures
          (Left (before ++ (if b then i ∷ l else l)))
          (teardown_networks h ctx l)
          (λ _. Left (before ++ (if b then i ∷ keep sticks l else keep sticks l)))
          (λ _. ⊥)
  teardown_next true i before l e s rest =
      Ensures-weaken
        (rest (before ++ i ∷ []) (All-append (λ j. sticks j ≡ true) before (i ∷ []) s (e, tt)))
        (λ w p. subst (λ m. Left m w) (sym (append_assoc before (i ∷ []) l)) p)
        (λ _ w p. subst (λ m. Left m w) (append_assoc before (i ∷ []) (keep sticks l)) p) (λ w p. p)
  teardown_next false i before l e s rest = rest before s

  teardown_ensures :
      (before l : List ℕ)
      → AllStick before
      → AllNetworks l
      → Ensures
          (Left (before ++ l))
          (teardown_networks h ctx l)
          (λ _. Left (before ++ keep sticks l))
          (λ _. ⊥)
  unfolding teardown_networks
  teardown_ensures before [] s n = Ensures-pure tt (λ w p. p)
  teardown_ensures before (i ∷ l) s n =
      Ensures-bind {T = λ _. Left (before ++ (if sticks i then i ∷ l else l))}
        (rw n.0 (Ensures-bind (settable.tears_down i before l s) λ o. Ensures-pure tt (λ w p. p)))
        (λ _. teardown_next (sticks i) i before l refl s (λ k s. teardown_ensures k l s n.1))

  -- The error of a network that failed to be set up.
  abbrev pub setup_error : ℕ → Error → Error
  setup_error i e = wrapped (codes "network setup failed for " ++ h.injector_name i ++ codes ": ") e

  -- The set-up of one of the injectors failed, and `up` are the network injectors before it.
  pub record FailedAt (is up : List ℕ) (e : Error) : Type 0 where
    pub before : List ℕ
    pub failed : ℕ
    pub after : List ℕ
    pub cause : Error
    pub place : is ≡ before ++ failed ∷ after
    pub ups : up ≡ keep h.is_network before
    pub error : e ≡ setup_error failed cause

  -- What setup_networks tells, after the injectors `done`.
  abbrev SetUp : List ℕ → List ℕ × Option Error → W → Type 0
  SetUp is (up, none) w = AllNetworks up × (up ≡ keep h.is_network is) × Up up w
  SetUp is (up, some e) w = FailedAt is up e × Up up w

  setup_ensures :
      (all done up is : List ℕ)
      → all ≡ done ++ is
      → up ≡ keep h.is_network done
      → AllNetworks up
      → Ensures (Up up) (setup_networks h ctx up is) (SetUp all) (λ _. ⊥)
  unfolding setup_networks
  setup_ensures all done up [] e u n =
      Ensures-pure _ (λ w p. (n, u ∙ ap (keep h.is_network) (sym (e ∙ append-nil done)), p))
  setup_ensures all done up (i ∷ is) e u n =
      Ensures-if (h.is_network i)
        (λ b. Ensures-bind (settable.sets_up i up) (elim [
          | none ↦
              setup_ensures all (done ++ i ∷ []) (up ++ i ∷ []) is
                (e ∙ sym (append_assoc done (i ∷ []) is))
                (ap (λ l. l ++ i ∷ []) u ∙ sym (keep_one h.is_network done i b))
                (All-append (λ j. h.is_network j ≡ true) up (i ∷ []) n (b, tt))
          | some x ↦ Ensures-pure _ (λ w p. (
            record {
              before = done;
              failed = i;
              after = is;
              cause = x;
              place = e;
              ups = u;
              error = refl;
            },
            p,
          ))
        ]))
        (λ b.
          setup_ensures all (done ++ i ∷ []) up is (e ∙ sym (append_assoc done (i ∷ []) is))
            (u ∙ sym (keep_none h.is_network done i b)) n)

  -- How the run ends, by what the set-up of the networks told. All of them were set up: when it is
  -- left, exactly those that stick are up. One failed: its error is returned, and the networks that
  -- were set up before it are all up.
  abbrev pub Settled :
      List ℕ → Outcome (List ℕ × Option Error) → Outcome (Option (Option Error)) × State W → Type 0
  Settled is (returns (up, none)) x =
      (up ≡ keep h.is_network is)
      × Leaves (λ _ s. Left (keep sticks up) s.world) (λ s. Left (keep sticks up) s.world) x
  Settled is (returns (up, some e)) x =
      FailedAt is up e × Leaves (λ o s. (o ≡ some (some e)) × Up up s.world) (λ _. ⊥) x
  Settled is (panics v) x = ⊥

  all_down :
      (l : List ℕ)
      → AllNetworks l
      → Ensures
          (λ (s : State W). Left l s.world)
          (call (teardown_networks h ctx l))
          (λ _ s. Left (keep sticks l) s.world)
          (λ s. Left (keep sticks l) s.world)
  all_down l n =
      Ensures-weaken (call_ensures (teardown_ensures [] l tt n)) (λ s p. p) (λ _ s q. q)
        (λ s q. absurd q)

  module _ (policy : FailurePolicy) (sc : Scenario) (target fuel : ℕ)
      (rest : (l : List ℕ)
        → Ensures
            (λ s. Up l s.world)
            (run_started h policy sc target fuel ctx)
            (λ _ s. Left l s.world)
            (λ s. Left l s.world)) where
    torn_down :
        (up : List ℕ)
        → AllNetworks up
        → Ensures
            (λ (s : State W). Up up s.world)
            (defer (call (teardown_networks h ctx up)) (run_started h policy sc target fuel ctx))
            (λ _ s. Left (keep sticks up) s.world)
            (λ s. Left (keep sticks up) s.world)
    torn_down up n =
        Ensures-defer {T = λ _ s. Left up s.world} {U = λ s. Left up s.world} (rest up)
          (λ o. all_down up n) (all_down up n)

    after_setup :
        (x : Outcome (List ℕ × Option Error) × W) (s : State W)
        → Leaves (SetUp (all_injectors sc)) (λ _. ⊥) x
        → Settled (all_injectors sc) x.0 (
            continue
              (λ a. elim a.1 [
                | some e ↦ pure (some (some e))
                | none ↦
                    defer
                      (call (teardown_networks h ctx a.0))
                      (run_started h policy sc target fuel ctx)
              ])
              x.0
              (record s { world = x.1 }))
    after_setup (returns (up, none), w) s (n, u, p) =
        (u, (torn_down up n).at (record s { world = w }) p)
    after_setup (returns (up, some e), w) s (f, p) = (f, (refl, p))
    after_setup (panics v, w) s p = p

    -- Run's part from the first SetupNetwork on, in a world where no network is up, for network
    -- injectors that keep their promises and a rest of the run that leaves the networks alone. When
    -- all networks can be set up, they are torn down behind the rest of the run however that ends:
    -- exactly those are up at the end whose TeardownNetwork leaves them up. When the set-up of one
    -- fails, its error is returned and the networks that were set up before it stay up: nothing
    -- takes them down.
    pub run_networked-Settled :
        (s : State W)
        → Up [] s.world
        → Settled
            (all_injectors sc)
            (setup_networks h ctx [] (all_injectors sc) s.world).0
            (run_networked h policy sc target fuel ctx s)
    unfolding run_networked ◌>>=◌ call
    run_networked-Settled s none_up =
        after_setup (setup_networks h ctx [] (all_injectors sc) s.world) s (
          (setup_ensures (all_injectors sc) [] [] (all_injectors sc) refl refl tt).at s.world
            none_up)
