-- ===== src/Prelude/Int.antt =====
-- Go's signed integers: `int`, `int64`, `time.Duration` and instants, over the native numbers.
use chaoskit.Prelude.Tests.{ltb, if◌then◌else◌, ◌==◌}
use Prim.Native.Nat.{ℕ, suc, ◌+◌, ◌-◌, ◌/◌, ◌%◌, ◌^◌, ◌≤◌, ◌<◌}
use mathlib.Core.Path.{◌≡◌, refl}
use mathlib.Core.Bool.{Bool, true}
use native.Mathlib.Omega.{arith}

-- `negsuc n` is -(n + 1).
pub data ℤ : Type 0 where
  pos : ℕ → ℤ
  negsuc : ℕ → ℤ

abbrev pub pos_part : ℤ → ℕ
pos_part (pos n) = n
pos_part (negsuc n) = 0

abbrev pub neg_part : ℤ → ℕ
neg_part (pos n) = 0
neg_part (negsuc n) = suc n

infix 50 ◌≤ℤ◌
abbrev pub ◌≤ℤ◌ : ℤ → ℤ → Type 0
a ≤ℤ b = pos_part a + neg_part b ≤ pos_part b + neg_part a

abbrev pub ltb_ℤ : ℤ → ℤ → Bool
ltb_ℤ a b = ltb (pos_part a + neg_part b) (pos_part b + neg_part a)

-- The 64-bit two's complement pattern of an integer, and the integer of a pattern.
abbrev pub bits : ℤ → ℕ
bits (pos n) = n % 2 ^ 64
bits (negsuc n) = 2 ^ 64 - 1 - n % 2 ^ 64

abbrev pub of_bits : ℕ → ℤ
of_bits m = if ltb m (2 ^ 63) then pos m else negsuc (2 ^ 64 - 1 - m)

-- a + b on int64: the sum wraps around.
unfoldable pub add64 : ℤ → ℤ → ℤ
add64 a b = of_bits ((bits a + bits b) % 2 ^ 64)

abbrev pub neg : ℕ → ℤ
neg n = if n == 0 then pos 0 else negsuc (n - 1)

-- a / n for a positive n: the quotient is truncated towards zero.
unfoldable pub quot : ℤ → ℕ → ℤ
quot (pos a) n = pos (a / n)
quot (negsuc a) n = neg (suc a / n)

pub add64_small : (a b : ℕ) → a + b < 2 ^ 63 → add64 (pos a) (pos b) ≡ pos (a + b)
unfolding add64
add64_small a b h = ground arith

add64_wraps : add64 (pos 9223372036854775807) (pos 1) ≡ negsuc 9223372036854775807
unfolding add64
add64_wraps = refl

add64_signs : add64 (negsuc 2) (pos 10) ≡ pos 7
unfolding add64
add64_signs = refl

-- The difference of two integers.
abbrev of_parts : ℕ → ℕ → ℤ
of_parts a b = if ltb a b then negsuc (b - a - 1) else pos (a - b)

abbrev pub minus : ℤ → ℤ → ℤ
minus a b = of_parts (pos_part a + neg_part b) (pos_part b + neg_part a)

of_parts_parts : (a b : ℕ) → pos_part (of_parts a b) + b ≡ a + neg_part (of_parts a b)
of_parts_parts a b = ground arith

-- A later instant is further from any other.
pub minus_mono : (a b s : ℤ) → a ≤ℤ b → minus a s ≤ℤ minus b s
minus_mono a b s l = omega (
  arith,
  l,
  of_parts_parts (pos_part a + neg_part s) (pos_part s + neg_part a),
  of_parts_parts (pos_part b + neg_part s) (pos_part s + neg_part b),
)

pub ltb_ℤ-trans : (a b c : ℤ) → ltb_ℤ a b ≡ true → b ≤ℤ c → ltb_ℤ a c ≡ true
ltb_ℤ-trans a b c h l = ground arith

pub add64_negative :
    (a n : ℕ) → a < 2 ^ 63 → n < 2 ^ 63 → add64 (pos a) (negsuc n) ≡ minus (pos a) (pos (suc n))
unfolding add64
add64_negative a n h k = ground arith

-- a - b on int64
unfoldable pub sub64 : ℤ → ℤ → ℤ
sub64 a b = of_bits ((bits a + 2 ^ 64 - bits b) % 2 ^ 64)
