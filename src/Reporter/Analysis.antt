-- ===== src/Reporter/Analysis.antt =====
-- reporter.go: analyzeFailures.
use chaoskit.Prelude.{ℕ, ◌+◌, Option, none, some, List, [], ◌∷◌, map, if◌then◌else◌, take}
use chaoskit.Text.{Str, str_eq}
use chaoskit.Errors.{Error, Result, ok, ◌>>=◌}
use chaoskit.Verdict.{critical}
use chaoskit.Execution.{ExecutionResult}
use chaoskit.Report.{Counts, ErrorSummary, FailureAnalysis}
use chaoskit.Reporter.Names.{extract_validator_name, classify_error, normalize_error}
use chaoskit.Reporter.Orders.{MapOrder}
use chaoskit.Reporter.Sorting.{sort_by}

-- counts[key]++
unfoldable pub increment : Str → Counts → Counts
increment key [] = (key, 1) ∷ []
increment key ((k, n) ∷ rest) =
    if str_eq k key then (k, n + 1) ∷ rest else (k, n) ∷ increment key rest

-- counts[key], which is 0 where the key is missing
unfoldable pub count_of : Str → Counts → ℕ
count_of key [] = 0
count_of key ((k, n) ∷ rest) = if str_eq k key then n else count_of key rest

pub record Tally : Type 0 where
  pub by_validator : Counts
  pub by_type : Counts
  pub patterns : Counts

unfoldable pub tally_error : Error → Tally → Result Tally
unfolding increment
tally_error e t = do
  name ← extract_validator_name e
  ok (record {
    by_validator = increment name t.by_validator;
    by_type = increment (classify_error e) t.by_type;
    patterns = increment (normalize_error e) t.patterns;
  })

unfoldable pub tally_result : Option Error → Tally → Result Tally
unfolding tally_error
tally_result none t = ok t
tally_result (some e) t = tally_error e t

unfoldable pub tally : Tally → List ExecutionResult → Result Tally
tally t [] = ok t
tally t (r ∷ rs) = tally_result r.error t >>= λ t'. tally t' rs

-- The field `Severity` keeps its zero value, which is SeverityCritical.
abbrev pub summary_of : Str × ℕ → ErrorSummary
summary_of (pattern', n) = record { error_pattern = pattern'; count = n; severity = critical }

abbrev pub count_of_pair : Str × ℕ → ℕ
count_of_pair (pattern', n) = n

abbrev pub empty_tally : Tally
empty_tally = record { by_validator = []; by_type = []; patterns = [] }

unfoldable pub analyze_failures : MapOrder → List ExecutionResult → Result FailureAnalysis
unfolding tally tally_result
analyze_failures o rs = do
  t ← tally empty_tally rs
  ok (record {
    by_validator = t.by_validator;
    by_type = t.by_type;
    top_errors = map summary_of (take 5 (sort_by count_of_pair (o.pattern_order t.patterns)));
  })
