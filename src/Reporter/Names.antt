-- ===== src/Reporter/Names.antt =====
-- reporter.go: what the reporter reads out of an error's message, and the canonical form of a
-- validator's name.
pub mod RoundTrip
pub mod Keys
use chaoskit.Prelude.{
  ◌≡◌, refl, Bool, true, false, ◌&&◌, ◌||◌, Option, none, some, List, [], ◌∷◌, map, ltb, leb, ◌==◌,
  if◌then◌else◌,
}
use chaoskit.Prelude.{ℕ}
use chaoskit.Text.{
  Str, codes, index, contains, has_prefix, slice, trim_space, trim_prefix, to_lower, is_digit,
}
use chaoskit.Errors.{Error, Result, ok, panic, message}
use chaoskit.Thresholds.{
  goroutine_limit, recursion_depth, slow_iteration, memory_limit, panic_recovery, execution_time,
  recursion_depth_limit, memory_under, panics, infinite_loop, max_errors, type_goroutine_leak,
  type_panic, type_recursion, type_timeout, type_memory, type_other, type_unknown,
}

abbrev sliced : Option Str → Result Str
sliced none = panic (codes "slice bounds out of range")
sliced (some s) = ok (trim_space s)

-- msg[10:idx] panics where idx < 10.
unfoldable pub name_before : Str → Option ℕ → Result Str
unfolding slice trim_space
name_before msg none = ok type_unknown
name_before msg (some idx) =
    if ltb 0 idx && has_prefix msg (codes "validator ")
    then sliced (slice msg 10 idx)
    else ok type_unknown

-- The name in "validator X failed: …".
unfoldable pub extract_validator_name : Error → Result Str
unfolding name_before
extract_validator_name e = let msg = message e in name_before msg (index msg (codes " failed:"))

unfoldable pub classify_error : Error → Str
unfolding contains to_lower
classify_error e =
    let msg = to_lower (message e) in
    if contains msg (codes "goroutine")
    then type_goroutine_leak
    else if contains msg (codes "panic")
    then type_panic
    else if contains msg (codes "recursion")
    then type_recursion
    else if contains msg (codes "infinite loop")
        || (contains msg (codes "infinite") && contains msg (codes "loop"))
    then type_timeout
    else if contains msg (codes "timeout")
    then type_timeout
    else if contains msg (codes "memory")
    then type_memory
    else if contains msg (codes "too many errors")
        || (contains msg (codes "error") && contains msg (codes "limit"))
    then type_other
    else type_other

-- regexp `\d+` replaced by "N": a run of digits, the first of which has been seen or not.
replace_digits : Bool → Str → Str
replace_digits seen [] = []
replace_digits seen (c ∷ s) =
    let rest = replace_digits (is_digit c) s in
    if is_digit c then (if seen then rest else 78 ∷ rest) else c ∷ rest

unfoldable pub normalize_error : Error → Str
unfolding replace_digits
normalize_error e = replace_digits false (message e)

-- regexp `[_-]\d+[a-z]*$` replaced by "": the three functions read a text to its end.
unfoldable pub letters : Str → Bool
letters [] = true
letters (c ∷ s) = (leb 97 c && leb c 122) && letters s

unfoldable pub digits_letters : Str → Bool
unfolding letters
digits_letters [] = true
digits_letters (c ∷ s) = (is_digit c && digits_letters s) || ((leb 97 c && leb c 122) && letters s)

unfoldable pub numbered : Str → Bool
unfolding digits_letters
numbered [] = false
numbered (c ∷ s) = is_digit c && digits_letters s

unfoldable pub strip_number : Str → Str
unfolding numbered
strip_number [] = []
strip_number (c ∷ s) = if (c == 95 || c == 45) && numbered s then [] else c ∷ strip_number s

abbrev hyphen : ℕ → ℕ
hyphen c = if c == 95 then 45 else c

abbrev pub Mapping : Type 0
Mapping = Str × Str

-- The map literal of `normalizeValidatorName`.
abbrev pub mappings : List Mapping
mappings =
    (goroutine_limit, goroutine_limit)
    ∷ (recursion_depth_limit, recursion_depth)
    ∷ (slow_iteration, slow_iteration)
    ∷ (memory_under, memory_limit)
    ∷ (panics, panic_recovery)
    ∷ (execution_time, execution_time)
    ∷ (infinite_loop, infinite_loop)
    ∷ (max_errors, max_errors)
    ∷ []

-- `for key, value := range mappings`, in the order of that iteration.
unfoldable pub first_key : List Mapping → Str → Option Str
unfolding contains
first_key [] name = none
first_key ((key, value) ∷ rest) name = if contains name key then some value else first_key rest name

unfoldable pub key_parts : Str → Str
unfolding contains
key_parts name =
    if contains name (codes "goroutine")
    then goroutine_limit
    else if contains name (codes "recursion")
    then recursion_depth
    else if contains name (codes "slow")
    then slow_iteration
    else if contains name (codes "infinite") && contains name (codes "loop")
    then infinite_loop
    else if contains name (codes "memory")
    then memory_limit
    else if contains name (codes "panic")
    then panic_recovery
    else if contains name (codes "execution") || contains name (codes "time")
    then execution_time
    else if contains name (codes "error") && contains name (codes "max")
    then max_errors
    else if contains name (codes "max_errors")
    then max_errors
    else name

-- The name that is looked up in the mappings.
unfoldable pub plain_name : Str → Str
unfolding to_lower strip_number trim_prefix
plain_name name =
    map hyphen
      (trim_prefix (trim_prefix (strip_number (to_lower name)) (codes "no_")) (codes "no-"))

abbrev pub or_key_parts : Option Str → Str → Str
or_key_parts none name = key_parts name
or_key_parts (some value) name = value

-- `order` is the order in which this call's loop visits the mappings.
unfoldable pub normalize_validator_name : List Mapping → Str → Str
unfolding first_key key_parts plain_name
normalize_validator_name order name =
    or_key_parts (first_key order (plain_name name)) (plain_name name)

-- The examples of the function's own comment.
normalize_tests :
    (normalize_validator_name mappings (codes "goroutine_limit_100") ≡ goroutine_limit)
    × (normalize_validator_name mappings (codes "recursion_depth_limit_10") ≡ recursion_depth)
    × (normalize_validator_name mappings (codes "slow_iteration_5s") ≡ slow_iteration)
    × (normalize_validator_name mappings (codes "memory_under_100MB") ≡ memory_limit)
    × (normalize_validator_name mappings (codes "no_panics_5") ≡ panic_recovery)
    × (normalize_validator_name mappings (codes "no_infinite_loop_200ms") ≡ infinite_loop)
    × (normalize_validator_name mappings (codes "max_errors_5") ≡ max_errors)
unfolding normalize_validator_name
normalize_tests = (refl, refl, refl, refl, refl, refl, refl)
