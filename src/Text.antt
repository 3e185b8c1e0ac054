-- ===== src/Text.antt =====
-- Go's strings, as the code walks them (reporter.go, injectors/network_contextual.go): lists of
-- bytes. A name or a message is taken to be ASCII where `ToLower` and `TrimSpace` read it.
pub mod Search
use Prim.Native.Char.{code}
use chaoskit.Prelude.{
  ℕ, zero, suc, ◌+◌, ◌-◌, ◌/◌, ◌%◌, ◌≤◌, ◌≡◌, refl, inl, inr, All, Bool-cases, Bool, true, false,
  ◌&&◌, ◌||◌, Option, none, some, List, [], ◌∷◌, ◌++◌, map, arith, String, ltb, leb, ◌==◌,
  if◌then◌else◌, length, take, drop,
}
use chaoskit.Prelude.Int.{ℤ, pos, negsuc}
use mathlib.Core.List.{reverse}

abbrev pub Str : Type 0
Str = List ℕ

-- A literal of the source.
abbrev pub codes : String → Str
codes String.[] = []
codes (String.◌∷◌ c s) = code c ∷ codes s

-- a == b
unfoldable pub str_eq : Str → Str → Bool
str_eq [] [] = true
str_eq [] (d ∷ t) = false
str_eq (c ∷ s) [] = false
str_eq (c ∷ s) (d ∷ t) = c == d && str_eq s t

-- strings.HasPrefix(s, p)
unfoldable pub has_prefix : Str → Str → Bool
has_prefix s [] = true
has_prefix [] (c ∷ p) = false
has_prefix (d ∷ s) (c ∷ p) = d == c && has_prefix s p

abbrev pub next : Option ℕ → Option ℕ
next none = none
next (some i) = some (suc i)

-- strings.Index(s, sub); `none` is -1.
unfoldable pub index : Str → Str → Option ℕ
index [] sub = if has_prefix [] sub then some 0 else none
index (c ∷ s) sub = if has_prefix (c ∷ s) sub then some 0 else next (index s sub)

-- strings.Contains(s, sub)
unfoldable pub contains : Str → Str → Bool
unfolding index has_prefix
contains s sub = elim (index s sub) [ none ↦ false | some _ ↦ true ]

-- s[from:to]; `none` is the run-time panic.
unfoldable pub slice : Str → ℕ → ℕ → Option Str
slice s from to =
    if leb from to && leb to (length s) then some (take (to - from) (drop from s)) else none

abbrev is_space : ℕ → Bool
is_space c = (leb 9 c && leb c 13) || c == 32

trim_left : Str → Str
trim_left [] = []
trim_left (c ∷ s) = if is_space c then trim_left s else c ∷ s

-- strings.TrimSpace(s)
unfoldable pub trim_space : Str → Str
unfolding trim_left
trim_space s = reverse (trim_left (reverse (trim_left s)))

abbrev lower : ℕ → ℕ
lower c = if leb 65 c && leb c 90 then c + 32 else c

-- strings.ToLower(s)
unfoldable pub to_lower : Str → Str
to_lower = map lower

-- strings.TrimPrefix(s, p)
unfoldable pub trim_prefix : Str → Str → Str
unfolding has_prefix
trim_prefix s p = if has_prefix s p then drop (length p) s else s

abbrev pub is_digit : ℕ → Bool
is_digit c = leb 48 c && leb c 57

-- strings.Join(parts, sep)
unfoldable pub join : List Str → Str → Str
join [] sep = []
join (p ∷ []) sep = p
join (p ∷ q ∷ ps) sep = p ++ sep ++ join (q ∷ ps) sep

digits : ℕ → ℕ → Str → Str
digits zero n out = out
digits (suc f) n out =
    let rest = digits f (n / 10) ((48 + n % 10) ∷ out) in if n == 0 then out else rest

-- %d of an int that is not negative, and of any.
unfoldable pub show_nat : ℕ → Str
unfolding digits
show_nat n = if n == 0 then codes "0" else digits n n []

unfoldable pub show_int : ℤ → Str
unfolding show_nat
show_int (pos n) = show_nat n
show_int (negsuc n) = codes "-" ++ show_nat (suc n)

-- A numeral is not empty, and all its characters are digits.
abbrev pub IsDigits : Str → Type 0
IsDigits = All (λ c. is_digit c ≡ true)

abbrev pub IsNumeral : Str → Type 0
IsNumeral s = (1 ≤ length s) × IsDigits s

digit_char : (n : ℕ) → is_digit (48 + n % 10) ≡ true
digit_char n = ground arith

digits-IsNumeral : (f n : ℕ) (out : Str) → IsNumeral out → IsNumeral (digits f n out)
unfolding digits
digits-IsNumeral zero n out p = p
digits-IsNumeral (suc f) n out p = elim (Bool-cases (n == 0)) [
  | inl e ↦ rw e p
  | inr e ↦
      rw e (digits-IsNumeral f (n / 10) ((48 + n % 10) ∷ out) (omega arith, (digit_char n, p.1)))
]

suc_positive : (n : ℕ) → (suc n == 0) ≡ false
suc_positive n = ground arith

pub show_nat-IsNumeral : (n : ℕ) → IsNumeral (show_nat n)
unfolding show_nat digits
show_nat-IsNumeral zero = (omega arith, (refl, tt))
show_nat-IsNumeral (suc n) = rw (suc_positive n) (
    digits-IsNumeral n (suc n / 10) ((48 + suc n % 10) ∷ [])
      (omega arith, (digit_char (suc n), tt)))

show_int_tests : (show_int (pos 1203) ≡ codes "1203") × (show_int (negsuc 9) ≡ codes "-10")
unfolding show_int
show_int_tests = (refl, refl)

search_tests :
    (index (codes "chicken") (codes "ken") ≡ some 4)
    × (contains (codes "chicken") (codes "dmr") ≡ false)
    × (trim_space (codes "  a b ") ≡ codes "a b")
    × (slice (codes "abc") 2 1 ≡ none)
    × (to_lower (codes "Go-1") ≡ codes "go-1")
    × (join (codes "a" ∷ codes "b" ∷ []) (codes ", ") ≡ codes "a, b")
unfolding contains has_prefix slice trim_space to_lower join
search_tests = (refl, refl, refl, refl, refl, refl)
