-- ===== src/Platform.antt =====
-- What the code takes from Go's runtime and standard library and never looks into: float64
-- arithmetic, and how `fmt` and `time` print a float, a duration or an instant.
use chaoskit.Prelude.{ℕ, ◌<◌, ◌≡◌, Bool}
use chaoskit.Prelude.Int.{ℤ}
use chaoskit.Text.{Str}

pub record Platform : Type 1 where
  pub Float : Type 0
  pub float_lt : Float → Float → Bool
  pub float_le : Float → Float → Bool
  pub float_div : Float → Float → Float
  pub float_mul : Float → Float → Float
  -- float64(n)
  pub float_of : ℕ → Float
  -- `literal m e` is the literal m / 10^e
  pub literal : ℕ → ℕ → Float
  -- %.2f
  pub show_fixed : Float → Str
  -- %v of a time.Duration, in nanoseconds
  pub show_duration : ℤ → Str
  -- t.Format(time.RFC3339), with t in nanoseconds
  pub show_instant : ℤ → Str

-- IEEE 754: a finite number other than 0, divided by itself, is exactly 1.
pub record PlatformLaws (p : Platform) : Type 0 where
  pub div_self : (n : ℕ) → 0 < n → p.float_div (p.float_of n) (p.float_of n) ≡ p.literal 1 0
