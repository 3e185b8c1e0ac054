-- ===== src/Reporter/Failures/Spec.antt =====
-- What the categories of failures are to say, read off the results: how often a validator's name
-- stands in an error, and how many errors name a validator of a given severity.
use chaoskit.Prelude.{ℕ, ◌+◌, ◌≡◌, All, Option, none, some, List, [], ◌∷◌, Bool, if◌then◌else◌}
use chaoskit.Text.{Str}
use chaoskit.Errors.{Error, Result, ok, err, panic}
use chaoskit.Execution.{ExecutionResult}
use chaoskit.Report.{ValidationFailure}
use chaoskit.Reporter.Names.{extract_validator_name}

abbrev pub one_if : Bool → ℕ
one_if b = if b then 1 else 0

-- How often a predicate holds of the name in a result's error: once or not at all.
abbrev pub named : (Str → Bool) → Result Str → ℕ
named q (ok name) = one_if (q name)
named q (err e) = 0
named q (panic s) = 0

abbrev pub blamed : (Str → Bool) → Option Error → ℕ
blamed q none = 0
blamed q (some e) = named q (extract_validator_name e)

-- The number of results whose error names a validator with the property `q`.
abbrev pub times : (Str → Bool) → List ExecutionResult → ℕ
times q [] = 0
times q (r ∷ rs) = blamed q r.error + times q rs

-- The occurrences that a list of failures accounts for, of the names with the property `q`.
abbrev pub weight : (Str → Bool) → ValidationFailure → ℕ
weight q f = if q f.validator_name then f.occurrences else 0

abbrev pub occurrences : (Str → Bool) → List ValidationFailure → ℕ
occurrences q [] = 0
occurrences q (f ∷ fs) = weight q f + occurrences q fs

-- The errors of these results name a validator, or are absent.
abbrev pub IsReadable : Option Error → Type 0
IsReadable none = Unit
IsReadable (some e) = (name : Str) × (extract_validator_name e ≡ ok name)

-- The name in a result's error, if there is one, has the property `P`.
abbrev pub Speaks : (Str → Type 0) → Option Error → Type 0
Speaks P none = Unit
Speaks P (some e) = (v : Str) → extract_validator_name e ≡ ok v → P v

abbrev pub AllSpeak : (Str → Type 0) → List ExecutionResult → Type 0
AllSpeak P = All (λ r. Speaks P r.error)
