-- ===== src/Reporter/Orders.antt =====
-- Go visits a map's entries in an order of its own choosing, anew at each `range`; `sort.Slice`
-- leaves equal entries in any order. Both enter the reporter as this record: the entries are put in
-- some order first, and the sort itself is stable, which gives every outcome of the two.
use mathlib.Core.List.{Perm}
use chaoskit.Prelude.{ℕ, List}
use chaoskit.Text.{Str}
use chaoskit.Verdict.{Severity}
use chaoskit.Report.{ValidationFailure}
use chaoskit.Reporter.Names.{Mapping, mappings}

pub record MapOrder : Type 0 where
  -- at the n-th failed result of the pass for a severity
  pub mapping_order : Severity → ℕ → List Mapping
  pub failure_order : List ValidationFailure → List ValidationFailure
  pub pattern_order : List (Str × ℕ) → List (Str × ℕ)

-- Each order visits every entry exactly once.
pub record MapOrderLaws (o : MapOrder) : Type 0 where
  pub mapping_order-Perm : (s : Severity) (n : ℕ) → Perm (o.mapping_order s n) mappings
  pub failure_order-Perm : (fs : List ValidationFailure) → Perm (o.failure_order fs) fs
  pub pattern_order-Perm : (ps : List (Str × ℕ)) → Perm (o.pattern_order ps) ps

-- The entries in the order in which they were inserted.
abbrev pub insertion_order : MapOrder
insertion_order = record {
  mapping_order = λ s n. mappings;
  failure_order = λ fs. fs;
  pattern_order = λ ps. ps;
}
