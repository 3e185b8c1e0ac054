-- ===== src/Reporter/Judge/Returns.antt =====
-- When GetVerdict returns a report (reporter.go): errors that can be read, enough for the loops.
use chaoskit.Prelude.{ℕ, ◌≡◌, refl, Option, none, some, List, [], ◌∷◌, All}
use chaoskit.Prelude.Int.{ℤ}
use chaoskit.Errors.{Error, ok}
use chaoskit.Platform.{Platform}
use chaoskit.Verdict.{Severity, critical, warning, info}
use chaoskit.Thresholds.{SuccessThresholds}
use chaoskit.Execution.{ExecutionResult}
use chaoskit.Report.{FailureAnalysis, ValidationFailure}
use chaoskit.Reporter.Names.{Mapping}
use chaoskit.Reporter.Orders.{MapOrder}
use chaoskit.Reporter.Failures.{take_result, collect, categorize_failures}
use chaoskit.Reporter.Failures.Spec.{IsReadable}
use chaoskit.Reporter.Analysis.{Tally, empty_tally, tally_result, tally, analyze_failures}
use chaoskit.Reporter.Judge.{draft_report, draft_of}

abbrev pub AllReadable : List ExecutionResult → Type 0
AllReadable = All (λ r. IsReadable r.error)

module _ {Float : Type 0} (t : SuccessThresholds Float) (order : ℕ → List Mapping) where
  take_result_returns :
      (s : Severity) (n : ℕ) (o : Option Error) (r : ExecutionResult) (fs : List ValidationFailure)
      → IsReadable o
      → (p : ℕ × List ValidationFailure) × (take_result t order s n o r fs ≡ ok p)
  unfolding take_result
  take_result_returns s n none r fs h = ((n, fs), refl)
  take_result_returns s n (some e) r fs (v, p) = rw p (_, refl)

  collect_returns :
      (s : Severity) (n : ℕ) (fs : List ValidationFailure) (rs : List ExecutionResult)
      → AllReadable rs
      → (gs : List ValidationFailure) × (collect t order s n fs rs ≡ ok gs)
  unfolding collect
  collect_returns s n fs [] h = (fs, refl)
  collect_returns s n fs (r ∷ rs) h =
      let ((m, gs), p) = take_result_returns s n r.error r fs h.0 in
      let (hs, q) = collect_returns s m gs rs h.1 in (hs, rw p q)

categorize_returns :
    {Float : Type 0} (o : MapOrder) (t : SuccessThresholds Float) (s : Severity)
    (rs : List ExecutionResult)
    → AllReadable rs
    → (fs : List ValidationFailure) × (categorize_failures o t s rs ≡ ok fs)
unfolding categorize_failures
categorize_returns o t s rs h =
    let (gs, p) = collect_returns t (o.mapping_order s) s 0 [] rs h in rw p (_, refl)

tally_result_returns :
    (o : Option Error) (c : Tally) → IsReadable o → (d : Tally) × (tally_result o c ≡ ok d)
unfolding tally_result
tally_result_returns none c h = (c, refl)
tally_result_returns (some e) c (v, p) = rw p (_, refl)

tally_returns :
    (c : Tally) (rs : List ExecutionResult) → AllReadable rs → (d : Tally) × (tally c rs ≡ ok d)
unfolding tally
tally_returns c [] h = (c, refl)
tally_returns c (r ∷ rs) h =
    let (d, p) = tally_result_returns r.error c h.0 in
    let (e, q) = tally_returns d rs h.1 in (e, rw p q)

analyze_returns :
    (o : MapOrder) (rs : List ExecutionResult)
    → AllReadable rs
    → (a : FailureAnalysis) × (analyze_failures o rs ≡ ok a)
unfolding analyze_failures
analyze_returns o rs h = let (c, p) = tally_returns empty_tally rs h in rw p (_, refl)

module _ (p : Platform) (o : MapOrder) (now : ℤ) (t : SuccessThresholds p.Float) where
  -- The parts of the report, and the draft that is made of them.
  pub draft_returns :
      (r : ExecutionResult) (rs : List ExecutionResult)
      → AllReadable (r ∷ rs)
      → (a : FailureAnalysis) × (cs : List ValidationFailure) × (ws : List ValidationFailure)
        × (is : List ValidationFailure) × (categorize_failures o t critical (r ∷ rs) ≡ ok cs)
        × (categorize_failures o t warning (r ∷ rs) ≡ ok ws)
        × (draft_report p o now t r rs ≡ ok (draft_of p now t r rs a cs ws is))
  unfolding draft_report
  draft_returns r rs h =
      let (a, pa) = analyze_returns o (r ∷ rs) h in
      let (cs, pc) = categorize_returns o t critical (r ∷ rs) h in
      let (ws, pw) = categorize_returns o t warning (r ∷ rs) h in
      let (is, pi) = categorize_returns o t info (r ∷ rs) h in
      (a, cs, ws, is, pc, pw, rw (pa, pc, pw, pi))
