-- ===== src/Reporter/Judge/Inversion.antt =====
-- What a report of GetVerdict was made of (reporter.go).
use chaoskit.Prelude.{◌≤◌, arith, length, ◌≡◌, refl, sym, List, [], ◌∷◌}
use chaoskit.Prelude.Int.{ℤ}
use chaoskit.Errors.{Result, ok, err, panic, wrapped, >>=-eq-ok}
use chaoskit.Text.{codes}
use chaoskit.Platform.{Platform}
use chaoskit.Verdict.{critical, warning, info}
use chaoskit.Thresholds.{SuccessThresholds, validate}
use chaoskit.Execution.{ExecutionResult}
use chaoskit.Report.{Report, ValidationFailure, FailureAnalysis}
use chaoskit.Reporter.Orders.{MapOrder}
use chaoskit.Reporter.Failures.{categorize_failures}
use chaoskit.Reporter.Analysis.{analyze_failures}
use chaoskit.Reporter.Judge.{Reporter, get_verdict, draft_report, draft_of, conclude}

ok_inj {ℓ} : {A : Type ℓ} {a b : A} → ok a ≡ ok b → a ≡ b
ok_inj e = cc

module _ (p : Platform) (o : MapOrder) (now : ℤ) (t : SuccessThresholds p.Float) where
  draft_form :
      (r : ExecutionResult) (rs : List ExecutionResult) (d : Report p.Float)
      → draft_report p o now t r rs ≡ ok d
      → (a : FailureAnalysis) × (cs : List ValidationFailure) × (ws : List ValidationFailure)
        × (is : List ValidationFailure) × (d ≡ draft_of p now t r rs a cs ws is)
  unfolding draft_report
  draft_form r rs d e =
      let (a, ea, e1) = >>=-eq-ok (analyze_failures o (r ∷ rs)) _ e in
      let (cs, ec, e2) = >>=-eq-ok (categorize_failures o t critical (r ∷ rs)) _ e1 in
      let (ws, ew, e3) = >>=-eq-ok (categorize_failures o t warning (r ∷ rs)) _ e2 in
      let (is, ei, e4) = >>=-eq-ok (categorize_failures o t info (r ∷ rs)) _ e3 in
      (a, cs, ws, is, sym (ok_inj e4))

  abbrev validated : Result (Unit {0}) → Result (Report p.Float) → Result (Report p.Float)
  validated v next = elim v [
    | err e ↦ err (wrapped (codes "invalid thresholds: ") e)
    | panic s ↦ panic s
    | ok _ ↦ next
  ]

  past_validation :
      (v : Result (Unit {0})) (next : Result (Report p.Float)) (report : Report p.Float)
      → validated v next ≡ ok report
      → next ≡ ok report
  past_validation (ok u) next report e = e
  past_validation (err x) next report e = cc
  past_validation (panic x) next report e = cc

  from_results :
      (results : List ExecutionResult) (report : Report p.Float)
      → get_verdict p o now (record { results = results }) t ≡ ok report
      → (r : ExecutionResult) × (rs : List ExecutionResult) × (a : FailureAnalysis) × (cs : List
          ValidationFailure)
        × (ws : List ValidationFailure) × (is : List ValidationFailure) × (results ≡ r ∷ rs)
        × (report ≡ conclude p (draft_of p now t r rs a cs ws is))
  unfolding get_verdict
  from_results [] report e = cc
  from_results (r ∷ rs) report e =
      let (d, ed, ec) =
        >>=-eq-ok (draft_report p o now t r rs) (λ report. ok (conclude p report))
          (past_validation (validate p t) _ report e) in
      let (a, cs, ws, is, f) = draft_form r rs d ed in
      (r, rs, a, cs, ws, is, refl, rw (← f) (sym (ok_inj ec)))

  -- A report is the conclusion of a draft over all the results.
  pub get_verdict_form :
      (rp : Reporter) (report : Report p.Float)
      → get_verdict p o now rp t ≡ ok report
      → (r : ExecutionResult) × (rs : List ExecutionResult) × (a : FailureAnalysis) × (cs : List
          ValidationFailure)
        × (ws : List ValidationFailure) × (is : List ValidationFailure) × (rp.results ≡ r ∷ rs)
        × (report ≡ conclude p (draft_of p now t r rs a cs ws is))
  get_verdict_form rp report e = from_results rp.results report e

  was_valid :
      (v : Result (Unit {0})) (next : Result (Report p.Float)) (report : Report p.Float)
      → validated v next ≡ ok report
      → v ≡ ok tt
  was_valid (ok u) next report e = refl
  was_valid (err x) next report e = cc
  was_valid (panic x) next report e = cc

  -- There is no report without results, nor for thresholds that do not validate.
  pub get_verdict_needs :
      (results : List ExecutionResult) (report : Report p.Float)
      → get_verdict p o now (record { results = results }) t ≡ ok report
      → (1 ≤ length results) × (validate p t ≡ ok tt)
  unfolding get_verdict
  get_verdict_needs [] report e = cc
  get_verdict_needs (r ∷ rs) report e = (omega arith, was_valid (validate p t) _ report e)
