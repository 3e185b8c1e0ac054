-- ===== src/Verdict.antt =====
-- verdict.go: the verdict of a run, its exit code, and the severities of validators.
use chaoskit.Prelude.{ℕ, ◌+◌, Bool, true, false, ◌==◌}
use chaoskit.Prelude.Int.{ℤ, pos_part, neg_part}
use chaoskit.Text.{Str, codes}

-- The type is an `int`: `other` stands for a value that no constant names.
pub data Verdict : Type 0 where
  pass unstable fail : Verdict
  other : ℤ → Verdict

unfoldable pub verdict_string : Verdict → Str
verdict_string pass = codes "PASS"
verdict_string unstable = codes "UNSTABLE"
verdict_string fail = codes "FAIL"
verdict_string (other n) = codes "UNKNOWN"

unfoldable pub exit_code : Verdict → ℕ
exit_code pass = 0
exit_code unstable = 0
exit_code fail = 1
exit_code (other n) = 1

pub data Severity : Type 0 where
  critical warning info : Severity
  other : ℤ → Severity

unfoldable pub severity_string : Severity → Str
severity_string critical = codes "CRITICAL"
severity_string warning = codes "WARNING"
severity_string info = codes "INFO"
severity_string (other n) = codes "UNKNOWN"

-- a == b
unfoldable pub severity_eq : Severity → Severity → Bool
severity_eq critical critical = true
severity_eq warning warning = true
severity_eq info info = true
severity_eq (other a) (other b) = pos_part a + neg_part b == pos_part b + neg_part a
severity_eq _ _ = false
