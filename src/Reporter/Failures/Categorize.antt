-- ===== src/Reporter/Failures/Categorize.antt =====
-- What categorizeFailures returns, whatever the order of the maps (reporter.go).
use mathlib.Core.List.{Perm, Permᴰ, Nodup, Nodup-nil, Nodup-cons, Mem, mem-cons, not-mem-nil}
use mathlib.Core.List.Perm
use mathlib.Core.Logic.{∥∥₁_elim}
use mathlib.Core.Logic.Or
use mathlib.Core.HLevel.{⊥_prop}
use native.Mathlib.Nat.{ℕ_set}
use native.Mathlib.Bridge.{le_prop}
use chaoskit.Prelude.{ℕ, ◌≤◌, ◌≡◌, refl, subst, ◌∙◌, ap, Bool, ◌&&◌, List, [], ◌∷◌, map, arith, All}
use chaoskit.Prelude.Perms.{All-Perm}
use chaoskit.Text.{Str}
use chaoskit.Text.Search.{str_eq_iff}
use chaoskit.Errors.{ok, >>=-eq-ok}
use chaoskit.Verdict.{Severity, severity_eq}
use chaoskit.Thresholds.{SuccessThresholds}
use chaoskit.Execution.{ExecutionResult}
use chaoskit.Report.{ValidationFailure}
use chaoskit.Reporter.Names.{mappings}
use chaoskit.Reporter.Names.Keys.{IsUnambiguous, normalize-Perm}
use chaoskit.Reporter.Orders.{MapOrder, MapOrderLaws}
use chaoskit.Reporter.Sorting.{sort_by}
use chaoskit.Reporter.Sorting.Order.{sort_by-Perm, sort_by-IsSorted, IsSorted}
use chaoskit.Reporter.Failures.{collect, validator_severity, categorize_failures}
use chaoskit.Reporter.Failures.Spec.{AllSpeak, times, weight, occurrences}
use chaoskit.Reporter.Failures.Notes.{Lacks, Distinct, occurrences-collect, collect-IsTally}

occurrences-Permᴰ :
    (q : Str → Bool) {fs gs : List ValidationFailure}
    → Permᴰ fs gs
    → occurrences q fs ≡ occurrences q gs
occurrences-Permᴰ q Permᴰ.nil = refl
occurrences-Permᴰ q (Permᴰ.cons e p) = omega (arith, ap (weight q) e, occurrences-Permᴰ q p)
occurrences-Permᴰ q (Permᴰ.swap d e) = omega (arith, ap (weight q) d, ap (weight q) e)
occurrences-Permᴰ q (Permᴰ.trans p r) = occurrences-Permᴰ q p ∙ occurrences-Permᴰ q r

pub occurrences-Perm :
    (q : Str → Bool) {fs gs : List ValidationFailure}
    → Perm fs gs
    → occurrences q fs ≡ occurrences q gs
occurrences-Perm q p = ∥∥₁_elim p (ℕ_set _ _) (occurrences-Permᴰ q)

abbrev pub validator_names : List ValidationFailure → List Str
validator_names = map (λ f. f.validator_name)

Lacks-not_mem : (v : Str) (fs : List ValidationFailure) → Lacks v fs → ¬ Mem v (validator_names fs)
Lacks-not_mem v [] h m = not-mem-nil m
Lacks-not_mem v (f ∷ fs) h m =
    Or.elim ⊥_prop (mem-cons.0 m) (λ e. ground (arith, str_eq_iff f.validator_name v))
      (Lacks-not_mem v fs h.1)

Distinct-Nodup : (fs : List ValidationFailure) → Distinct fs → Nodup (validator_names fs)
Distinct-Nodup [] h = Nodup-nil
Distinct-Nodup (f ∷ fs) h =
    Nodup-cons.1 (Lacks-not_mem f.validator_name fs h.0, Distinct-Nodup fs h.1)

Severity-set : IsSet Severity
Severity-set = hlevel

pub ok-injective {ℓ} : {A : Type ℓ} {a b : A} → ok a ≡ ok b → a ≡ b
ok-injective h = cc

-- A list of failures as a reader of the report wants it.
pub record IsOrdered (s : Severity) (fs : List ValidationFailure) : Type 0 where
  pub positive : All (λ f. 1 ≤ f.occurrences) fs
  pub sorted : IsSorted (λ f. f.occurrences) fs
  pub uniform : All (λ f. f.severity ≡ s) fs
  pub distinct : Nodup (validator_names fs)

-- The severity of a name, with the mappings visited as they are written.
abbrev pub severity_of : {Float : Type 0} → SuccessThresholds Float → Str → Severity
severity_of t = validator_severity t mappings

abbrev pub of_severity :
    {Float : Type 0} → SuccessThresholds Float → Severity → (Str → Bool) → Str → Bool
of_severity t s q v = severity_eq (severity_of t v) s && q v

module _ {Float : Type 0} (o : MapOrder) (laws : MapOrderLaws o) (t : SuccessThresholds Float) where
  stable :
      (s : Severity) (n : ℕ) (v : Str)
      → IsUnambiguous v
      → validator_severity t (o.mapping_order s n) v ≡ severity_of t v
  unfolding validator_severity
  stable s n v u = rw (normalize-Perm (o.mapping_order s n) v (laws.mapping_order-Perm s n) u)

  sorted-Perm :
      (fs : List ValidationFailure) → Perm (sort_by (λ f. f.occurrences) (o.failure_order fs)) fs
  sorted-Perm fs =
      Perm.trans (sort_by-Perm (λ f. f.occurrences) (o.failure_order fs))
        (laws.failure_order-Perm fs)

  back : (fs : List ValidationFailure) → Perm fs (sort_by (λ f. f.occurrences) (o.failure_order fs))
  back fs = Perm.symm (sorted-Perm fs)

  -- When categorizeFailures returns a list, and the errors name validators unambiguously, the
  -- occurrences that it lists under a severity are the failed results that name a validator of that
  -- severity, name by name and in every sum over names.
  pub occurrences-categorize :
      (q : Str → Bool) (s : Severity) (rs : List ExecutionResult) (fs : List ValidationFailure)
      → AllSpeak IsUnambiguous rs
      → categorize_failures o t s rs ≡ ok fs
      → occurrences q fs ≡ times (of_severity t s q) rs
  unfolding categorize_failures
  occurrences-categorize q s rs fs c h =
      let (gs, p, g) = >>=-eq-ok (collect t (o.mapping_order s) s 0 [] rs) _ h in
      omega (
        arith,
        ap (occurrences q) (ok-injective g),
        occurrences-Perm q (sorted-Perm gs),
        occurrences-collect t (o.mapping_order s) (severity_of t) IsUnambiguous (stable s) q s 0 []
            gs rs c p,
      )

  -- When categorizeFailures returns a list, and the errors name validators unambiguously, the list
  -- is sorted by occurrences, the most frequent first, each of them is positive, all have the
  -- severity asked for, and no validator is listed twice.
  pub categorize-IsOrdered :
      (s : Severity) (rs : List ExecutionResult) (fs : List ValidationFailure)
      → AllSpeak IsUnambiguous rs
      → categorize_failures o t s rs ≡ ok fs
      → IsOrdered s fs
  unfolding categorize_failures
  categorize-IsOrdered s rs fs c h =
      let (gs, p, g) = >>=-eq-ok (collect t (o.mapping_order s) s 0 [] rs) _ h in
      let k =
        collect-IsTally t (o.mapping_order s) (severity_of t) IsUnambiguous (stable s) s 0 [] gs rs
          c p (record { positive = tt; uniform = tt; distinct = tt }) in
      subst (IsOrdered s) (ok-injective g) (record {
        positive = All-Perm (λ f. 1 ≤ f.occurrences) (λ f. le_prop) (back gs) k.positive;
        sorted = sort_by-IsSorted (λ f. f.occurrences) (o.failure_order gs);
        uniform = All-Perm (λ f. f.severity ≡ s) (λ f. Severity-set _ _) (back gs) k.uniform;
        distinct =
            Perm.nodup (Perm.map (λ f. f.validator_name) (back gs)) (Distinct-Nodup gs k.distinct);
      })
