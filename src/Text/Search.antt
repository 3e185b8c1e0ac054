-- ===== src/Text/Search.antt =====
-- Laws of the string functions: equality, prefixes, and where a text is first found.
use mathlib.Core.List.{reverse, reverse-cons, reverse-reverse}
use chaoskit.Prelude.{
  ℕ, suc, ◌+◌, ◌≤◌, ◌≡◌, refl, ◌≢◌, ◌↔◌, true, false, Option, some, [], ◌∷◌, ◌++◌, arith, All,
  All-append, Any, length, inl, inr, ◌∙◌, ap,
}
use chaoskit.Text.{Str, codes, str_eq, has_prefix, index, next, trim_left, trim_space}

pub str_eq_refl : (s : Str) → str_eq s s ≡ true
unfolding str_eq
str_eq_refl [] = refl
str_eq_refl (c ∷ s) = ground (arith, str_eq_refl s)

pub str_eq_sound : (s t : Str) → str_eq s t ≡ true → s ≡ t
unfolding str_eq
str_eq_sound [] [] h = refl
str_eq_sound [] (d ∷ t) h = cc
str_eq_sound (c ∷ s) [] h = cc
str_eq_sound (c ∷ s) (d ∷ t) h = ground (arith, str_eq_sound s t)

pub has_prefix-append : (p s : Str) → has_prefix (p ++ s) p ≡ true
unfolding has_prefix
has_prefix-append [] [] = refl
has_prefix-append [] (c ∷ s) = refl
has_prefix-append (c ∷ p) s = ground (arith, has_prefix-append p s)

-- A printable character that is neither a space nor a colon.
abbrev pub IsPlain : ℕ → Type 0
IsPlain c = (33 ≤ c) × (c ≢ 58)

-- A text with a colon and no space is no prefix of a plain text and a space.
has_prefix_colon :
    (v p s : Str)
    → All IsPlain v
    → All (λ c. c ≢ 32) p
    → Any (λ c. c ≡ 58) p
    → has_prefix (v ++ 32 ∷ s) p ≡ false
unfolding has_prefix
has_prefix_colon [] [] s hv hp hc = absurd hc
has_prefix_colon [] (c ∷ p) s hv hp hc = ground arith
has_prefix_colon (d ∷ v) [] s hv hp hc = absurd hc
has_prefix_colon (d ∷ v) (c ∷ p) s hv hp (inl e) = ground arith
has_prefix_colon (d ∷ v) (c ∷ p) s hv hp (inr hc) =
    ground (arith, has_prefix_colon v p s hv.1 hp.1 hc)

abbrev failed_mark : Str
failed_mark = codes " failed:"

-- In a plain text and what follows, the mark is found right behind the plain text.
index_mark :
    (v s : Str) → All IsPlain v → index (v ++ (failed_mark ++ s)) failed_mark ≡ some (length v)
unfolding index has_prefix
index_mark [] s h = ground (arith, has_prefix-append [] s)
index_mark (c ∷ v) s h = ground (arith, index_mark v s h.1)

-- The space behind "validator" starts no mark, so the next one does.
mark_at_space :
    (v s : Str) → All IsPlain v → has_prefix (32 ∷ (v ++ (failed_mark ++ s))) failed_mark ≡ false
unfolding has_prefix
mark_at_space v s h =
    has_prefix_colon v (codes "failed:") (codes "failed:" ++ s) h (omega arith) (omega arith)

index_space :
    (v s : Str)
    → All IsPlain v
    → index (32 ∷ (v ++ (failed_mark ++ s))) failed_mark ≡ some (suc (length v))
unfolding index
index_space v s h = rw (mark_at_space v s h, index_mark v s h)

abbrev next_nine : Option ℕ → Option ℕ
next_nine o = next (next (next (next (next (next (next (next (next o))))))))

-- The mark of a validator's message stands right behind the validator's name.
pub index_validator :
    (v s : Str)
    → All IsPlain v
    → index (codes "validator " ++ (v ++ (failed_mark ++ s))) failed_mark ≡ some (10 + length v)
unfolding index has_prefix
index_validator v s h = ap next_nine (index_space v s h) ∙ ap some (omega arith)

trim_left_plain : (v : Str) → All IsPlain v → trim_left v ≡ v
unfolding trim_left
trim_left_plain [] h = refl
trim_left_plain (c ∷ v) h = ground arith

All-reverse : (v : Str) → All IsPlain v → All IsPlain (reverse v)
All-reverse [] h = tt
All-reverse (c ∷ v) h =
    rw (reverse-cons c v) (All-append IsPlain (reverse v) (c ∷ []) (All-reverse v h.1) (h.0, tt))

pub trim_space_plain : (v : Str) → All IsPlain v → trim_space v ≡ v
unfolding trim_space
trim_space_plain v h =
    rw (trim_left_plain v h, trim_left_plain (reverse v) (All-reverse v h)) (reverse-reverse v)

pub str_eq_iff : (s t : Str) → (str_eq s t ≡ true) ↔ (s ≡ t)
str_eq_iff s t = (str_eq_sound s t, λ e. rw e (str_eq_refl t))
