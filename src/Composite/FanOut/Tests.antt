-- ===== src/Composite/FanOut/Tests.antt =====
-- Runs of the fan-out.
use solace_broker_mcp.Common.{
  ◌++◌, ◌⊎◌, ◌==◌, ℕ, String, Bool, true, false, List, [], ◌∷◌, some, ◌≡◌, refl, key_eq,
}
use solace_broker_mcp.Common.Result.{Result, ok, err}
use solace_broker_mcp.Common.Json.{
  Json, text, array, object, Object, end, field, get, set, array_of,
}
use solace_broker_mcp.Composite.FanOut.{
  Job, duplicate_key, parent_rows, key_text, seen, add_job, of_row, add_row, dispatch_row,
  dispatch_on, dispatch_rows, end_calls, fan_out_result, finish_fan_out, fetch_fan_out,
}
use solace_broker_mcp.Composite.FanOut.Rows.{JobsOf, AnswersOf, fetch_fan_out-Rows}

abbrev vpn : String → String → Object
vpn name enabled = field "name" (text name) (field "enabled" (text enabled) end)

-- The rows that are enabled.
abbrev enabled_only : Object → Result String Bool
enabled_only row = elim (get "enabled" row) [
  | some (text s) ↦ ok (elim (key_eq s "true") [ yes _ ↦ true | no _ ↦ false ])
  | _ ↦ ok false
]

abbrev probe : Object → Result String Object
probe row = ok (field "data" (array (array_of [])) end)

abbrev int : ℕ → Json
int n = text "some"

abbrev three_rows : List Json
three_rows = object (vpn "a" "true") ∷ object (vpn "b" "false") ∷ object (vpn "c" "true") ∷ []

abbrev answered : Object
answered = fan_out_result int 1 (
    field "c" (object (field "data" (array (array_of [])) end))
      (field "a" (object (field "data" (array (array_of [])) end)) end))

rows_test : parent_rows (some (array (array_of three_rows))) ≡ ok three_rows
unfolding parent_rows
rows_test = refl

fan_out_test :
    fetch_fan_out enabled_only probe
      (λ n. false)
      (λ js. js)
      int
      "name"
      (some (array (array_of three_rows)))
    ≡ ok answered
unfolding fetch_fan_out finish_fan_out parent_rows dispatch_rows dispatch_on dispatch_row add_row
    add_job seen key_text of_row end_calls get set key_eq
fan_out_test = refl

duplicate_test :
    fetch_fan_out enabled_only probe
      (λ n. false)
      (λ js. js)
      int
      "enabled"
      (some (array (array_of three_rows)))
    ≡ err (duplicate_key "true")
unfolding fetch_fan_out finish_fan_out parent_rows dispatch_rows dispatch_on dispatch_row add_row
    add_job seen key_text of_row end_calls get set key_eq
duplicate_test = refl

-- The context ends before the second call.
cancelled_test :
    fetch_fan_out enabled_only probe
      (λ n. n == 1)
      (λ js. js)
      int
      "name"
      (some (array (array_of three_rows)))
    ≡ ok (fan_out_result int 1 (field "a" (object (field "data" (array (array_of [])) end)) end))
unfolding fetch_fan_out finish_fan_out parent_rows dispatch_rows dispatch_on dispatch_row add_row
    add_job seen key_text of_row end_calls get set key_eq
cancelled_test = refl

fetch_fan_out-Rows_example :
    (by_key : Object) × (skipped : ℕ) × (jobs : List Job) × (taken : List Json) × (rest : List Json)
    × (answered ≡ fan_out_result int skipped by_key)
    × (three_rows ≡ taken ++ rest)
    × ((rest ≡ []) ⊎ (false ≡ true))
    × JobsOf enabled_only probe (λ n. false) (λ js. js) int "name" taken jobs skipped
    × AnswersOf enabled_only probe (λ n. false) (λ js. js) int "name" jobs by_key
fetch_fan_out-Rows_example =
    fetch_fan_out-Rows enabled_only probe (λ n. false) (λ js. js) int "name"
      (some (array (array_of three_rows))) three_rows answered rows_test
      (λ js j. ((λ m. m), (λ m. m))) fan_out_test
