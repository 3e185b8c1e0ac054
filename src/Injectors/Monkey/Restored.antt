-- ===== src/Injectors/Monkey/Restored.antt =====
-- What an injector of patches leaves behind (Inject and Stop of injectors/monkey_patch_delay.go,
-- monkey_patch_error.go and monkey_patch_panic.go).
use chaoskit.Prelude.{
  ℕ, suc, ◌==◌, ==_iff, ◌≡◌, ◌⊎◌, inl, inr, refl, sym, ap, ◌∙◌, Bool, true, false, Option, none,
  some, List, [], ◌∷◌, ◌++◌, append_assoc, append-nil, subst, if◌then◌else◌,
}
use chaoskit.Errors.{Error, ok, err}
use chaoskit.Exec.{Exec, pure}
use chaoskit.Exec.Ensures.{Ensures, Leaves, Returns, Ensures-bind, Ensures-pure, Ensures-weaken}
use chaoskit.Host.{Host, Context}
use chaoskit.ChaosContext.{get_rand}
use chaoskit.Injectors.Patches.{
  Memory, Target, new_patch_manager, validate_function, create_patch, apply_patch, add_patch,
  restore_all_patches,
}
use chaoskit.Injectors.Patches.Order.{
  handle_of, apply_all, before_last, restore_all_patches-before_last,
}
use chaoskit.Injectors.Monkey.{
  Patching, Checks, prepared, patched_with, patch_each, after_check, stop_unless, inject_patches,
  stop_patches,
}

-- The variable that a target names.
abbrev pub variable : Target → List ℕ
variable (Target.function_at a name) = a ∷ []
variable t = []

abbrev is_in : ℕ → List ℕ → Bool
is_in b [] = false
is_in b (a ∷ l) = if b == a then true else is_in b l

-- No variable stands twice in the list.
abbrev pub Distinct : List ℕ → Type 0
Distinct [] = Unit
Distinct (a ∷ l) = (is_in a l ≡ false) × Distinct l

abbrev firsts : List (ℕ × ℕ) → List ℕ
firsts [] = []
firsts ((a, f) ∷ ps) = a ∷ firsts ps

unless_in :
    (x y : Bool) (now before r : ℕ)
    → (if x then true else y) ≡ false
    → (y ≡ false → r ≡ (if x then now else before))
    → r ≡ before
unless_in true y now before r e h = cc
unless_in false y now before r e h = h e

-- A variable that is not patched, or not again.
before_last-absent :
    (b now before : ℕ) (ps : List (ℕ × ℕ)) (rest : List ℕ)
    → is_in b (firsts ps ++ rest) ≡ false
    → before_last b now before ps ≡ before
before_last-absent b now before [] rest e = refl
before_last-absent b now before ((a, f) ∷ ps) rest e =
    unless_in (b == a) (is_in b (firsts ps ++ rest)) now before _ e
      (before_last-absent b (if b == a then f else now) (if b == a then now else before) ps rest)

unless_twice :
    (b : ℕ) (x : Bool) (f n : ℕ) (ps : List (ℕ × ℕ))
    → (x ≡ true → before_last b f n ps ≡ n)
    → before_last b n n ps ≡ n
    → before_last b (if x then f else n) (if x then n else n) ps ≡ n
unless_twice b true f n ps h k = h refl
unless_twice b false f n ps h k = k

before_last-Distinct :
    (b n : ℕ) (ps : List (ℕ × ℕ)) (rest : List ℕ)
    → Distinct (firsts ps ++ rest)
    → before_last b n n ps ≡ n
before_last-Distinct b n [] rest d = refl
before_last-Distinct b n ((a, f) ∷ ps) rest (once, d) =
    unless_twice b (b == a) f n ps
      (λ e.
        before_last-absent b f n ps rest
          (ap (λ x. is_in x (firsts ps ++ rest)) ((==_iff b a).0 e) ∙ once))
      (before_last-Distinct b n ps rest d)

get_rand-Returns :
    {W : Type 0} (h : Host W) (ctx : Context W)
    → Returns (h.new_rand none)
    → Returns (get_rand h ctx)
unfolding get_rand
get_rand-Returns h ctx seeds = given ctx.rand
  where
    given : (o : Option ℕ) → Returns (elim o [ none ↦ h.new_rand none | some rng ↦ pure rng ])
    given none = seeds
    given (some g) = Ensures-pure g (λ _ _. tt)

-- The variables that the targets name.
abbrev pub variables : {T : Type 0} → Checks T → List T → List ℕ
variables checks [] = []
variables checks (t ∷ ts) = variable (checks.func t) ++ variables checks ts

module _ {T : Type 0} (checks : Checks T) {W : Type 0} (h : Host W)
    (replacement : T → ℕ → ℕ → ℕ) where
  -- A target ends the loop with an error, or it names a variable, whose handle is made.
  prepared-cases :
      (i : ℕ) (o : Option Error) (target : Target) (s : Option Error) (m : Memory)
      → ((e : Error) × (prepared i o target s m ≡ err e))
        ⊎ ((a : ℕ) × (prepared i o target s m ≡ ok (handle_of a m)) × (variable target ≡ a ∷ []))
  unfolding prepared validate_function create_patch
  prepared-cases i (some e) target s m = inl (e, refl)
  prepared-cases i none Target.nil_value s m = inl (_, refl)
  prepared-cases i none (Target.not_pointer k) s m = inl (_, refl)
  prepared-cases i none (Target.not_function k) s m = inl (_, refl)
  prepared-cases i none (Target.function_at a name) (some e) m = inl (e, refl)
  prepared-cases i none (Target.function_at a name) none m = inr (a, refl, refl)

  -- The targets up to some place have been patched one after the other.
  abbrev Applied : List T → Patching T × Memory → Patching T × Memory → Type 0
  Applied ts x y =
      (ps : List (ℕ × ℕ)) × (rest : List ℕ) × (y.0.patch_manager.patches
        ≡ x.0.patch_manager.patches ++ (apply_all ps x.1).0)
      × (y.1 ≡ (apply_all ps x.1).1)
      × (y.0.stopped ≡ x.0.stopped)
      × (firsts ps ++ rest ≡ variables checks ts)

  extended :
      (t : T) (ts : List T) (a rng : ℕ) (x y : Patching T × Memory)
      → variable (checks.func t) ≡ a ∷ []
      → Applied ts (patched_with checks h replacement t (handle_of a x.1) rng x) y
      → Applied (t ∷ ts) x y
  unfolding patched_with apply_all apply_patch add_patch
  extended t ts a rng x y v (ps, rest, handles, memory, same, names) = (
    (a, replacement t rng (x.1 a)) ∷ ps,
    rest,
    handles ∙ append_assoc x.0.patch_manager.patches _ _,
    memory,
    same,
    ap (λ l. a ∷ l) names ∙ ap (λ l. l ++ variables checks ts) (sym v),
  )

  patch_each-Applied :
      (seeds : Returns (h.new_rand none)) (ctx : Context W) (i : ℕ) (ts : List T)
      (x : Patching T × Memory)
      → Ensures
          (λ _. Unit {0})
          (patch_each checks h replacement i ts ctx x)
          (λ y _. Applied ts x y.1)
          (λ _. ⊥)
  unfolding patch_each after_check apply_all
  patch_each-Applied seeds ctx i [] x =
      Ensures-pure _ (λ w u. ([], [], sym (append-nil _), refl, refl, refl))
  patch_each-Applied seeds ctx i (t ∷ ts) x =
      elim (prepared-cases i (checks.parameters i t) (checks.func t) (checks.shape i t) x.1) [
        | inl (e, q) ↦ rw q (
            Ensures-pure _
              (λ w u. ([], variables checks (t ∷ ts), sym (append-nil _), refl, refl, refl)))
        | inr (a, q, v) ↦ rw q (
            Ensures-bind (get_rand-Returns h ctx seeds) λ rng.
              Ensures-weaken (patch_each-Applied seeds ctx (suc i) ts _) (λ w u. tt)
                (λ y w l. extended t ts a rng x y.1 v l) (λ w l. l))
      ]

  restoring :
      (q : Patching T) (m : Memory)
      → q.stopped ≡ false
      → (stop_patches q m).1 ≡ (restore_all_patches q.patch_manager m).1
  unfolding stop_patches stop_unless
  restoring q m e = ap (λ c. (stop_unless c q m).1) e

  stop-Applied :
      (q : Patching T) (m : Memory) (b : ℕ) (y : Patching T × Memory)
      → q.stopped ≡ false
      → q.patch_manager ≡ new_patch_manager
      → Distinct (variables checks q.targets)
      → Applied q.targets (q, m) y
      → (stop_patches y.0 y.1).1 b ≡ m b
  unfolding new_patch_manager
  stop-Applied q m b y running new once (ps, rest, handles, memory, same, names) =
      let kept : y.0.patch_manager.patches ≡ (apply_all ps m).0 =
        handles ∙ ap (λ pm. pm.patches ++ (apply_all ps m).0) new in
      ap (λ f. f b) (restoring y.0 y.1 (same ∙ running))
      ∙ (ap (λ hs. (restore_all_patches (record { patches = hs }) y.1).1 b) kept
          ∙ (ap (λ k. (restore_all_patches (record { patches = (apply_all ps m).0 }) k).1 b) memory
              ∙ (restore_all_patches-before_last ps m b
                  ∙ before_last-Distinct b (m b) ps rest (subst Distinct (sym names) once))))

  go_on : {A : Type 0} (b : Bool) (m n : A) → b ≡ false → (if b then m else n) ≡ n
  go_on true m n e = cc
  go_on false m n e = refl

  -- The variables of the targets are distinct, the injector is new, and a new generator of random
  -- numbers can be made. Then Inject returns, whether with an error or not, and Stop after it leaves
  -- every variable with the function that it held before Inject.
  pub stop-after-inject :
      (seeds : Returns (h.new_rand none)) (q : Patching T) (ctx : Context W) (m : Memory) (w : W)
      (b : ℕ)
      → q.stopped ≡ false
      → q.patch_manager ≡ new_patch_manager
      → Distinct (variables checks q.targets)
      → Leaves
          (λ x _. (stop_patches x.1.0 x.1.1).1 b ≡ m b)
          (λ _. ⊥)
          (inject_patches checks h replacement q ctx m w)
  unfolding inject_patches
  stop-after-inject seeds q ctx m w b running new once =
      subst
        (λ (r : Exec W (Option Error × (Patching T × Memory))).
          Leaves (λ x _. (stop_patches x.1.0 x.1.1).1 b ≡ m b) (λ _. ⊥) (r w))
        (sym (go_on q.stopped _ _ running))
        ((Ensures-weaken (patch_each-Applied seeds ctx 0 q.targets (q, m)) (λ v u. u)
            (λ y v l. stop-Applied q m b y.1 running new once l) (λ v l. l)).at
          w tt)
