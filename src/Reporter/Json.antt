-- ===== src/Reporter/Json.antt =====
-- reporter.go: GenerateJSON and SaveJSON. The encoder of `encoding/json` and the file system are
-- parameters.
pub mod Agreement
use chaoskit.Prelude.{
  ℕ, suc, ◌+◌, ◌≡◌, Bool, Option, none, some, List, [], ◌∷◌, if◌then◌else◌, ltb, length, arith,
}
use chaoskit.Prelude.Int.{ℤ, pos, add64, quot}
use chaoskit.Text.{Str}
use chaoskit.Errors.{Error, message, Result, ok, err, panic}
use chaoskit.Exec.{Exec, pure, panics}
use chaoskit.Execution.{ExecutionResult}
use chaoskit.Reporter.Judge.{Reporter, successes, failures, total_duration}

pub record JsonResult : Type 0 where
  pub scenario : Str
  pub success : Bool
  -- omitted where it is empty
  pub error : Str
  pub duration_ms : ℤ
  pub steps : ℕ
  pub timestamp : ℤ

pub record JsonStats : Type 0 where
  pub total : ℕ
  pub success : ℕ
  pub failed : ℕ
  pub avg_duration : ℤ
  pub executions : List JsonResult

-- d.Milliseconds()
unfoldable pub milliseconds : ℤ → ℤ
milliseconds d = quot d 1000000

json_error : Option Error → Str
json_error none = []
json_error (some e) = message e

unfoldable pub json_result : ExecutionResult → JsonResult
unfolding json_error milliseconds
json_result r = record {
  scenario = r.scenario_name;
  success = r.success;
  error = json_error r.error;
  duration_ms = milliseconds r.duration;
  steps = r.steps_executed;
  timestamp = r.timestamp;
}

unfoldable pub json_results : List ExecutionResult → List JsonResult
json_results [] = []
json_results (r ∷ rs) = json_result r ∷ json_results rs

-- What is handed to the encoder.
unfoldable pub json_stats : Reporter → JsonStats
unfolding json_results milliseconds successes failures total_duration
json_stats rp =
    let n = length rp.results in
    record {
      total = n;
      success = successes rp.results;
      failed = failures rp.results;
      avg_duration =
          if ltb 0 n then milliseconds (quot (total_duration (pos 0) rp.results) n) else pos 0;
      executions = json_results rp.results;
    }

module _ (encode : JsonStats → Result Str) where
  unfoldable pub generate_json : Reporter → Result Str
  generate_json rp = encode (json_stats rp)

  -- `write` is os.WriteFile.
  unfoldable pub save_json :
      {W : Type 0} → (Str → Str → Exec W (Option Error)) → Reporter → Str → Exec W (Option Error)
  save_json write rp path = elim (generate_json rp) [
    | ok text ↦ write path text
    | err e ↦ pure (some e)
    | panic v ↦ λ w. (panics v, w)
  ]
