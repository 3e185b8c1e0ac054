-- ===== src/Reporter/Failures/Notes.antt =====
-- One failed result in the map of failures, and the loop over the results.
use chaoskit.Prelude.{
  ℕ, ◌+◌, ◌≤◌, ◌≡◌, refl, inl, inr, Bool, true, false, ◌&&◌, Option, none, some, List, [], ◌∷◌,
  subst, arith, All, if◌then◌else◌, Bool-cases,
}
use chaoskit.Text.{Str, str_eq}
use chaoskit.Text.Search.{str_eq_iff}
use chaoskit.Errors.{Error, Result, ok, err, panic, >>=-eq-ok}
use chaoskit.Verdict.{Severity, severity_eq}
use chaoskit.Thresholds.{SuccessThresholds}
use chaoskit.Execution.{ExecutionResult}
use chaoskit.Report.{ValidationFailure}
use chaoskit.Reporter.Names.{Mapping, extract_validator_name}
use chaoskit.Reporter.Failures.{note, take_result, collect, validator_severity}
use chaoskit.Reporter.Failures.Spec.{Speaks, AllSpeak, one_if, blamed, times, occurrences}

-- One more occurrence is accounted for, of the name that is noted.
occurrences-note :
    (q : Str → Bool) (v : Str) (s : Severity) (e : Error) (r : ExecutionResult)
    (fs : List ValidationFailure)
    → occurrences q (note v s e r fs) ≡ occurrences q fs + one_if (q v)
unfolding note
occurrences-note q v s e r [] = ground arith
occurrences-note q v s e r (f ∷ fs) =
    ground (arith, occurrences-note q v s e r fs, str_eq_iff f.validator_name v)

-- The name stands in no entry; no two entries have one name.
abbrev pub Lacks : Str → List ValidationFailure → Type 0
Lacks v fs = All (λ f. str_eq f.validator_name v ≡ false) fs

abbrev pub Distinct : List ValidationFailure → Type 0
Distinct [] = Unit
Distinct (f ∷ fs) = Lacks f.validator_name fs × Distinct fs

-- The facts about a map of failures that the loop keeps.
pub record IsTally (s : Severity) (fs : List ValidationFailure) : Type 0 where
  pub positive : All (λ f. 1 ≤ f.occurrences) fs
  pub uniform : All (λ f. f.severity ≡ s) fs
  pub distinct : Distinct fs

module _ (v : Str) (s : Severity) (e : Error) (r : ExecutionResult) where
  note-positive :
      (fs : List ValidationFailure)
      → All (λ f. 1 ≤ f.occurrences) fs
      → All (λ f. 1 ≤ f.occurrences) (note v s e r fs)
  unfolding note
  note-positive [] h = (omega arith, tt)
  note-positive (f ∷ fs) h = ground (arith, note-positive fs h.1)

  note-uniform :
      (fs : List ValidationFailure)
      → All (λ f. f.severity ≡ s) fs
      → All (λ f. f.severity ≡ s) (note v s e r fs)
  unfolding note
  note-uniform [] h = (refl, tt)
  note-uniform (f ∷ fs) h = ground (arith, note-uniform fs h.1)

  note-Lacks :
      (u : Str) (fs : List ValidationFailure)
      → str_eq v u ≡ false
      → Lacks u fs
      → Lacks u (note v s e r fs)
  unfolding note
  note-Lacks u [] h k = (h, tt)
  note-Lacks u (f ∷ fs) h k = ground (arith, note-Lacks u fs h k.1)

  note-Distinct : (fs : List ValidationFailure) → Distinct fs → Distinct (note v s e r fs)
  unfolding note
  note-Distinct [] h = (tt, tt)
  note-Distinct (f ∷ fs) h = ground (
    arith,
    note-Distinct fs h.1,
    note-Lacks f.validator_name fs,
    str_eq_iff f.validator_name v,
    str_eq_iff v f.validator_name,
  )

  note-IsTally : (fs : List ValidationFailure) → IsTally s fs → IsTally s (note v s e r fs)
  note-IsTally fs h = record {
    positive = note-positive fs h.positive;
    uniform = note-uniform fs h.uniform;
    distinct = note-Distinct fs h.distinct;
  }

severity_eq_sound : (a b : Severity) → severity_eq a b ≡ true → a ≡ b
unfolding severity_eq
severity_eq_sound a b h = ground arith

-- A severity that the order of the mappings does not sway, for the names that come up.
module _ {Float : Type 0} (t : SuccessThresholds Float) (order : ℕ → List Mapping)
    (sv : Str → Severity) (P : Str → Type 0)
    (stable : (n : ℕ) (v : Str) → P v → validator_severity t (order n) v ≡ sv v) where
  abbrev pub of_severity : Severity → (Str → Bool) → Str → Bool
  of_severity s q v = severity_eq (sv v) s && q v

  noted : Str → Severity → Error → ExecutionResult → List ValidationFailure → List ValidationFailure
  noted v s e r fs = if severity_eq (sv v) s then note v (sv v) e r fs else fs

  -- A failed result that the loop got over has a name that can be read.
  took :
      (s : Severity) (n : ℕ) (e : Error) (r : ExecutionResult) (fs gs : List ValidationFailure)
      (m : ℕ) (x : Result Str)
      → Speaks P (some e)
      → extract_validator_name e ≡ x
      → take_result t order s n (some e) r fs ≡ ok (m, gs)
      → (v : Str) × (extract_validator_name e ≡ ok v) × (gs ≡ noted v s e r fs)
  unfolding take_result noted
  took s n e r fs gs m (ok v) k p h = (v, p, ground (arith, stable n v (k v p)))
  took s n e r fs gs m (err _) k p h = absurd (ground arith)
  took s n e r fs gs m (panic _) k p h = absurd (ground arith)

  occurrences-noted :
      (q : Str → Bool) (v : Str) (s : Severity) (e : Error) (r : ExecutionResult)
      (fs : List ValidationFailure)
      → occurrences q (noted v s e r fs) ≡ occurrences q fs + one_if (of_severity s q v)
  unfolding noted
  occurrences-noted q v s e r fs = ground (arith, occurrences-note q v (sv v) e r fs)

  noted-IsTally :
      (v : Str) (s : Severity) (e : Error) (r : ExecutionResult) (fs : List ValidationFailure)
      → IsTally s fs
      → IsTally s (noted v s e r fs)
  unfolding noted
  noted-IsTally v s e r fs h = elim (Bool-cases (severity_eq (sv v) s)) [
    | inl p ↦ rw (p, severity_eq_sound (sv v) s p) (note-IsTally v s e r fs h)
    | inr p ↦ rw p h
  ]

  occurrences-take_result :
      (q : Str → Bool) (s : Severity) (n : ℕ) (o : Option Error) (r : ExecutionResult)
      (fs gs : List ValidationFailure) (m : ℕ)
      → Speaks P o
      → take_result t order s n o r fs ≡ ok (m, gs)
      → occurrences q gs ≡ occurrences q fs + blamed (of_severity s q) o
  unfolding take_result
  occurrences-take_result q s n none r fs gs m k h = ground arith
  occurrences-take_result q s n (some e) r fs gs m k h =
      let (v, p, g) = took s n e r fs gs m _ k refl h in
      rw g (ground (arith, p, occurrences-noted q v s e r fs))

  take_result-IsTally :
      (s : Severity) (n : ℕ) (o : Option Error) (r : ExecutionResult)
      (fs gs : List ValidationFailure) (m : ℕ)
      → Speaks P o
      → take_result t order s n o r fs ≡ ok (m, gs)
      → IsTally s fs
      → IsTally s gs
  unfolding take_result
  take_result-IsTally s n none r fs gs m c h k = subst (IsTally s) (ground arith) k
  take_result-IsTally s n (some e) r fs gs m c h k =
      let (v, p, g) = took s n e r fs gs m _ c refl h in rw g (noted-IsTally v s e r fs k)

  pub occurrences-collect :
      (q : Str → Bool) (s : Severity) (n : ℕ) (fs gs : List ValidationFailure)
      (rs : List ExecutionResult)
      → AllSpeak P rs
      → collect t order s n fs rs ≡ ok gs
      → occurrences q gs ≡ occurrences q fs + times (of_severity s q) rs
  unfolding collect
  occurrences-collect q s n fs gs [] c h = ground arith
  occurrences-collect q s n fs gs (r ∷ rs) c h =
      let ((m, hs), p, g) = >>=-eq-ok (take_result t order s n r.error r fs) _ h in
      omega (
        arith,
        occurrences-take_result q s n r.error r fs hs m c.0 p,
        occurrences-collect q s m hs gs rs c.1 g,
      )

  pub collect-IsTally :
      (s : Severity) (n : ℕ) (fs gs : List ValidationFailure) (rs : List ExecutionResult)
      → AllSpeak P rs
      → collect t order s n fs rs ≡ ok gs
      → IsTally s fs
      → IsTally s gs
  unfolding collect
  collect-IsTally s n fs gs [] c h k = subst (IsTally s) (ground arith) k
  collect-IsTally s n fs gs (r ∷ rs) c h k =
      let ((m, hs), p, g) = >>=-eq-ok (take_result t order s n r.error r fs) _ h in
      collect-IsTally s m hs gs rs c.1 g (take_result-IsTally s n r.error r fs hs m c.0 p k)
