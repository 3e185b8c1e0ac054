-- ===== src/Injectors/Patches/Order.antt =====
-- What RestoreAllPatches leaves in the patched variables (injectors/monkey_patch_common.go).
use chaoskit.Prelude.{
  ℕ, ◌==◌, ==_iff, ◌≡◌, refl, sym, ◌∙◌, ap, Bool, Bool-cases, true, false, inl, inr, List, [], ◌∷◌,
  All, if◌then◌else◌,
}
use chaoskit.Injectors.Patches.{
  Memory, set_at, PatchHandle, apply_patch, restore_patch, restore_when, restore_each,
  restore_all_patches,
}

-- What CreatePatch makes for the variable `a`.
abbrev pub handle_of : ℕ → Memory → PatchHandle
handle_of a m = record { func = a; original = m a; restorable = false; patched = false }

-- The variables are patched one after the other, each with its replacement: a handle keeps the
-- function that the variable holds at that time.
unfoldable pub apply_all : List (ℕ × ℕ) → Memory → List PatchHandle × Memory
apply_all [] m = ([], m)
apply_all ((a, f) ∷ rest) m =
    let x = apply_patch (handle_of a m) f m in let y = apply_all rest x.1 in (x.0 ∷ y.0, y.1)

-- What the variable `b` held before it was patched for the last time: `now` is what it holds, and
-- `before` what it held until now.
abbrev pub before_last : ℕ → ℕ → ℕ → List (ℕ × ℕ) → ℕ
before_last b now before [] = before
before_last b now before ((a, f) ∷ rest) =
    before_last b (if b == a then f else now) (if b == a then now else before) rest

abbrev last_original : ℕ → List PatchHandle → ℕ → ℕ
last_original b [] d = d
last_original b (h ∷ hs) d = last_original b hs (if b == h.func then h.original else d)

abbrev Ready : PatchHandle → Type 0
Ready h = (h.patched ≡ true) × (h.restorable ≡ true)

restoring :
    (b : ℕ) (x y : Bool) (h : PatchHandle) (m : Memory)
    → x ≡ true
    → y ≡ true
    → (restore_when x y h m).1 b ≡ (if b == h.func then h.original else m b)
unfolding restore_when
restoring b true true h m p q = refl
restoring b true false h m p q = cc
restoring b false y h m p q = cc

-- The last handle of a variable decides what it is left with.
restore_each-last :
    (b : ℕ) (hs : List PatchHandle) (m : Memory)
    → All Ready hs
    → (restore_each hs m).1 b ≡ last_original b hs (m b)
unfolding restore_each restore_patch
restore_each-last b [] m r = refl
restore_each-last b (h ∷ hs) m (r, rs) =
    restore_each-last b hs (restore_patch h m).1 rs
    ∙ ap (last_original b hs) (restoring b h.patched h.restorable h m r.0 r.1)

apply_all-Ready : (ps : List (ℕ × ℕ)) (m : Memory) → All Ready (apply_all ps m).0
unfolding apply_all apply_patch
apply_all-Ready [] m = tt
apply_all-Ready ((a, f) ∷ ps) m = ((refl, refl), apply_all-Ready ps (set_at a f m))

original_before :
    (a b d : ℕ) (m : Memory) → (if b == a then m a else d) ≡ (if b == a then m b else d)
original_before a b d m = elim (Bool-cases (b == a)) [
  | inl e ↦ rw e (ap m (sym ((==_iff b a).0 e)))
  | inr e ↦ rw e
]

apply_all-last :
    (b : ℕ) (ps : List (ℕ × ℕ)) (m : Memory) (d : ℕ)
    → last_original b (apply_all ps m).0 d ≡ before_last b (m b) d ps
unfolding apply_all apply_patch
apply_all-last b [] m d = refl
apply_all-last b ((a, f) ∷ ps) m d =
    apply_all-last b ps (set_at a f m) (if b == a then m a else d)
    ∙ ap (λ x. before_last b (if b == a then f else m b) x ps) (original_before a b d m)

unless :
    (b : ℕ) (x : Bool) (f n d : ℕ) (ps : List (ℕ × ℕ))
    → before_last b (if x then f else n) d ps
      ≡ before_last b (if x then f else n) (if x then f else n) ps
    → before_last b (if x then f else n) (if x then n else d) ps
      ≡ before_last b (if x then f else n) (if x then n else n) ps
unless b true f n d ps e = refl
unless b false f n d ps e = e

-- A variable that is never patched keeps its function.
untouched :
    (b : ℕ) (ps : List (ℕ × ℕ)) (m : Memory)
    → before_last b (m b) ((apply_all ps m).1 b) ps ≡ before_last b (m b) (m b) ps
unfolding apply_all apply_patch
untouched b [] m = refl
untouched b ((a, f) ∷ ps) m = unless b (b == a) f (m b) _ ps (untouched b ps (set_at a f m))

-- After any sequence of patches of a manager, RestoreAllPatches leaves every variable with what it
-- held before it was patched for the last time: a variable that was patched once gets its own
-- function back, and one that was patched twice is left with the first replacement.
pub restore_all_patches-before_last :
    (ps : List (ℕ × ℕ)) (m : Memory) (b : ℕ)
    → (restore_all_patches (record { patches = (apply_all ps m).0 }) (apply_all ps m).1).1 b
      ≡ before_last b (m b) (m b) ps
unfolding restore_all_patches
restore_all_patches-before_last ps m b =
    restore_each-last b (apply_all ps m).0 (apply_all ps m).1 (apply_all-Ready ps m)
    ∙ (apply_all-last b ps m ((apply_all ps m).1 b) ∙ untouched b ps m)
