-- ===== src/Validators/Recursion.antt =====
-- validators/recursion_depth.go: the depths that steps record, against a limit.
use chaoskit.Prelude.{
  ◌≡◌, refl, ◌↔◌, ◌++◌, Option, none, some, List, [], ◌∷◌, arith, All, if◌then◌else◌,
}
use chaoskit.Prelude.Int.{ℤ, ltb_ℤ, ◌≤ℤ◌}
use chaoskit.Text.{Str, codes, show_int}
use chaoskit.Errors.{Error, plain}
use chaoskit.Verdict.{Severity, critical}

pub record RecursionDepthValidator : Type 0 where
  pub name : Str
  pub max_depth : ℤ
  pub depths : List ℤ

unfoldable pub recursion_depth_limit : ℤ → RecursionDepthValidator
recursion_depth_limit max = record {
  name = codes "recursion_depth_limit_" ++ show_int max;
  max_depth = max;
  depths = [];
}

unfoldable pub recursion_severity : RecursionDepthValidator → Severity
recursion_severity r = critical

abbrev pub depth_exceeded : ℤ → ℤ → Error
depth_exceeded max depth = plain (
    codes "recursion depth exceeded: "
    ++ show_int depth
    ++ codes " (limit: "
    ++ show_int max
    ++ codes ")")

-- The loop over the depths; the greatest depth seen is only written to the log.
unfoldable pub check_depths : ℤ → List ℤ → Option Error
check_depths max [] = none
check_depths max (depth ∷ depths) =
    if ltb_ℤ max depth then some (depth_exceeded max depth) else check_depths max depths

unfoldable pub validate_depths : RecursionDepthValidator → Option Error
unfolding check_depths
validate_depths r = check_depths r.max_depth r.depths

unfoldable pub record_recursion : RecursionDepthValidator → ℤ → RecursionDepthValidator
record_recursion r depth = record r { depths = r.depths ++ depth ∷ [] }

abbrev pub IsWithin : ℤ → ℤ → Type 0
IsWithin max depth = depth ≤ℤ max

check_depths-passes :
    (max : ℤ) (depths : List ℤ) → (check_depths max depths ≡ none) ↔ All (IsWithin max) depths
unfolding check_depths
check_depths-passes max [] = ((λ _. tt), (λ _. refl))
check_depths-passes max (d ∷ ds) = ground (arith, check_depths-passes max ds)

check_depths-append :
    (max : ℤ) (ds : List ℤ) (d : ℤ)
    → (check_depths max (ds ++ d ∷ []) ≡ none) ↔ ((check_depths max ds ≡ none) × IsWithin max d)
unfolding check_depths
check_depths-append max [] d = ground arith
check_depths-append max (x ∷ ds) d = ground (arith, check_depths-append max ds d)

-- The recursion depth validator passes exactly when no recorded depth exceeds its limit. Recording a
-- depth makes it fail, or leaves it passing, by that depth alone.
pub validate_depths-record_recursion :
    (r : RecursionDepthValidator) (depth : ℤ)
    → ((validate_depths r ≡ none) ↔ All (IsWithin r.max_depth) r.depths)
      × ((validate_depths (record_recursion r depth) ≡ none)
          ↔ ((validate_depths r ≡ none) × IsWithin r.max_depth depth))
unfolding validate_depths record_recursion
validate_depths-record_recursion r depth =
    (check_depths-passes r.max_depth r.depths, check_depths-append r.max_depth r.depths depth)
