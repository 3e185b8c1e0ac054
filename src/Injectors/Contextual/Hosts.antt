-- ===== src/Injectors/Contextual/Hosts.antt =====
-- Which hosts a pattern matches (injectors/network_contextual.go).
use chaoskit.Prelude.{
  ◌-◌, ◌≤◌, ◌≡◌, ◌≢◌, ◌↔◌, sym, ◌∙◌, ap, Bool, true, false, Bool-cases, inl, inr, ◌&&◌, ◌++◌, arith,
  ltb, leb, length, ltb→lt, length-drop, take, drop, length-append, take-append, drop-append,
  take-drop,
}
use chaoskit.Text.{Str, codes, str_eq}
use chaoskit.Text.Search.{str_eq_iff, str_eq_refl, str_eq_sound}
use chaoskit.Injectors.Contextual.{matches_host, suffix_match, prefix_match}

-- The pattern is "*" or the host; or it is "*." and an ending of the host; or, where it does not
-- start with "*.", it is a beginning of the host and ".*". The ending and the beginning are not
-- empty.
pub data Matches (pattern host : Str) : Type 0 where
  any : pattern ≡ codes "*" → Matches pattern host
  same : pattern ≡ host → Matches pattern host
  ending :
      (before suffix : Str)
      → pattern ≡ codes "*." ++ suffix
      → 1 ≤ length suffix
      → host ≡ before ++ suffix
      → Matches pattern host
  beginning :
      (prefix after : Str)
      → pattern ≡ prefix ++ codes ".*"
      → 1 ≤ length prefix
      → ((s : Str) → pattern ≢ codes "*." ++ s)
      → host ≡ prefix ++ after
      → Matches pattern host

and-true : (a b : Bool) → (a && b) ≡ true → (a ≡ true) × (b ≡ true)
and-true a b h = ground arith

suffix_match_sound : (s h : Str) → suffix_match s h ≡ true → h ≡ take (length h - length s) h ++ s
unfolding suffix_match
suffix_match_sound s h e =
    let (l, q) = and-true _ (str_eq (drop (length h - length s) h) s) e in
    sym (take-drop (length h - length s) h)
    ∙ ap (λ x. take (length h - length s) h ++ x) (str_eq_sound _ s q)

suffix_match-append : (a s : Str) → suffix_match s (a ++ s) ≡ true
unfolding suffix_match
suffix_match-append a s =
    let long : leb (length s) (length (a ++ s)) ≡ true = ground (arith, length-append a s) in
    let cut : length (a ++ s) - length s ≡ length a = omega (arith, length-append a s) in
    rw (long, cut, drop-append a s, str_eq_refl s)

prefix_match_sound : (s h : Str) → prefix_match s h ≡ true → h ≡ s ++ drop (length s) h
unfolding prefix_match
prefix_match_sound s h e =
    let (l, q) = and-true _ (str_eq (take (length s) h) s) e in
    sym (take-drop (length s) h) ∙ ap (λ x. x ++ drop (length s) h) (str_eq_sound _ s q)

prefix_match-append : (s b : Str) → prefix_match s (s ++ b) ≡ true
unfolding prefix_match
prefix_match-append s b =
    let long : leb (length s) (length (s ++ b)) ≡ true = ground (arith, length-append s b) in
    rw (long, take-append s b, str_eq_refl s)

abbrev starts : Str → Bool
starts p = ltb 2 (length p) && str_eq (take 2 p) (codes "*.")

abbrev ends : Str → Bool
ends p = ltb 2 (length p) && str_eq (drop (length p - 2) p) (codes ".*")

starts-form : (p : Str) → starts p ≡ true → (p ≡ codes "*." ++ drop 2 p) × (1 ≤ length (drop 2 p))
starts-form p e =
    let (l, q) = and-true (ltb 2 (length p)) _ e in
    (
      sym (take-drop 2 p) ∙ ap (λ x. x ++ drop 2 p) (str_eq_sound (take 2 p) _ q),
      omega (arith, ltb→lt 2 (length p) l, length-drop 2 p),
    )

ends-form :
    (p : Str)
    → ends p ≡ true
    → (p ≡ take (length p - 2) p ++ codes ".*") × (1 ≤ length (take (length p - 2) p))
ends-form p e =
    let (l, q) = and-true (ltb 2 (length p)) _ e in
    let k = length p - 2 in
    let tail : drop k p ≡ codes ".*" = str_eq_sound (drop k p) _ q in
    let whole : p ≡ take k p ++ codes ".*" = sym (take-drop k p) ∙ ap (λ x. take k p ++ x) tail in
    (
      whole,
      omega (
        arith,
        ltb→lt 2 (length p) l,
        ap (λ (x : Str). length x) whole,
        length-append (take k p) (codes ".*"),
      ),
    )

starts-of : (s : Str) → 1 ≤ length s → starts (codes "*." ++ s) ≡ true
unfolding str_eq
starts-of s h = ground arith

ends-of : (s : Str) → 1 ≤ length s → ends (s ++ codes ".*") ≡ true
unfolding str_eq
ends-of s h =
    let long : ltb 2 (length (s ++ codes ".*")) ≡ true =
      ground (arith, length-append s (codes ".*")) in
    let cut : length (s ++ codes ".*") - 2 ≡ length s =
      omega (arith, length-append s (codes ".*")) in
    rw (long, cut, drop-append s (codes ".*"))

not_starting : (p : Str) → ((s : Str) → p ≢ codes "*." ++ s) → starts p ≡ false
not_starting p other = elim (Bool-cases (starts p)) [
  | inl e ↦ absurd (other (drop 2 p) (starts-form p e).0)
  | inr e ↦ e
]

started-not : (p s : Str) → starts p ≡ false → ends p ≡ true → p ≢ codes "*." ++ s
started-not p s e d q =
    let long : 1 ≤ length s = omega (
      arith,
      ltb→lt 2 (length p) (and-true (ltb 2 (length p)) _ d).0,
      ap (λ (x : Str). length x) q,
    ) in
    cc (starts-of s long, ap (λ (x : Str). starts x) q)

matches_host_sound : (p h : Str) → matches_host p h ≡ true → Matches p h
unfolding matches_host
matches_host_sound p h e = elim (Bool-cases (str_eq p (codes "*"))) [
  | inl a ↦ Matches.any (str_eq_sound p _ a)
  | inr a ↦ elim (Bool-cases (str_eq p h)) [
    | inl b ↦ Matches.same (str_eq_sound p h b)
    | inr b ↦ elim (Bool-cases (starts p)) [
      | inl c ↦
          let (f, l) = starts-form p c in
          Matches.ending _ _ f l (suffix_match_sound (drop 2 p) h (rw (a, b, c) at e))
      | inr c ↦ elim (Bool-cases (ends p)) [
        | inl d ↦
            let (f, l) = ends-form p d in
            Matches.beginning _ _ f l (λ s. started-not p s c d)
              (prefix_match_sound (take (length p - 2) p) h (rw (a, b, c, d) at e))
        | inr d ↦ absurd (cc (rw (a, b, c, d) at e))
      ]
    ]
  ]
]

ending-holds : (a s : Str) → 1 ≤ length s → matches_host (codes "*." ++ s) (a ++ s) ≡ true
unfolding matches_host
ending-holds a s l = elim (Bool-cases (str_eq (codes "*." ++ s) (codes "*"))) [
  | inl x ↦ rw x
  | inr x ↦ elim (Bool-cases (str_eq (codes "*." ++ s) (a ++ s))) [
    | inl y ↦ rw (x, y)
    | inr y ↦ rw (x, y, starts-of s l) (suffix_match-append a s)
  ]
]

beginning-holds :
    (s b : Str)
    → 1 ≤ length s
    → starts (s ++ codes ".*") ≡ false
    → matches_host (s ++ codes ".*") (s ++ b) ≡ true
unfolding matches_host
beginning-holds s b l n = elim (Bool-cases (str_eq (s ++ codes ".*") (codes "*"))) [
  | inl x ↦ rw x
  | inr x ↦ elim (Bool-cases (str_eq (s ++ codes ".*") (s ++ b))) [
    | inl y ↦ rw (x, y)
    | inr y ↦
        let cut : length (s ++ codes ".*") - 2 ≡ length s =
          omega (arith, length-append s (codes ".*")) in
        rw (x, y, n, ends-of s l, cut, take-append s (codes ".*")) (prefix_match-append s b)
  ]
]

matches_host_complete : (p h : Str) → Matches p h → matches_host p h ≡ true
unfolding matches_host
matches_host_complete p h (any e) =
    let t : str_eq p (codes "*") ≡ true = (str_eq_iff p (codes "*")).1 e in rw t
matches_host_complete p h (same e) =
    let t : str_eq p h ≡ true = (str_eq_iff p h).1 e in
    elim (Bool-cases (str_eq p (codes "*"))) [ inl x ↦ rw x | inr x ↦ rw (x, t) ]
matches_host_complete p h (ending a s e l f) = rw (e, f) (ending-holds a s l)
matches_host_complete p h (beginning s b e l n f) =
    rw (e, f) (beginning-holds s b l (rw e at (not_starting p n)))

-- A pattern matches a host exactly when the pattern is "*" or the host itself, or "*." and a
-- non-empty ending of the host, or, where it does not start with "*.", a non-empty beginning of the
-- host and ".*".
pub matches_host-Matches : (p h : Str) → (matches_host p h ≡ true) ↔ Matches p h
matches_host-Matches p h = (matches_host_sound p h, matches_host_complete p h)
