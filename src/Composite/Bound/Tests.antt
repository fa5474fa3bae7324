-- ===== src/Composite/Bound/Tests.antt =====
-- A result that is cut, and instances of the theorems on it. Each row counts 10 and each step 5.
use solace_broker_mcp.Common.{ℕ, ◌+◌, ◌*◌, ◌≡◌, refl, key_eq, false, [], ◌∷◌, some, length}
use solace_broker_mcp.Common.Json.{
  text, array, object, Object, end, field, get, set, delete, array_of,
}
use solace_broker_mcp.Composite.Bound.{
  Lib, shave, shave_of, shave_first, row_sizes, candidates, candidate_at, candidate_data,
  candidate_of, measured_candidate, step_ids, trimmed_step,
}
use solace_broker_mcp.Composite.Bound.Passes.{
  bound_response, bound_candidates, feasible, settle, exact, after_measure, measured, build,
  put_step, shave_excess, after_shave,
}
use solace_broker_mcp.Composite.Bound.Fits.{Bounded, bound_response-Bounded}
use solace_broker_mcp.Composite.Bound.Rows.{Prefixes, rows_at, bound_response-Prefixes}

abbrev size_of : Object → ℕ
size_of end = 0
size_of (field id v out) = 5 + 10 * length (rows_at id (field id v end)) + size_of out

abbrev lib : Lib
lib = record {
  itoa = λ n. "n";
  sort = λ ids. ids;
  text_size = λ out. some (size_of out);
  row_size = λ row. some 2;
}

abbrev result : Object
result =
    field "list"
      (object (field "data" (array (array_of (text "a" ∷ text "b" ∷ text "c" ∷ []))) end)) end

rows_left : rows_at "list" (bound_response lib 20 false (λ id. false) result 35).0 ≡ text "a" ∷ []
unfolding bound_response bound_candidates feasible settle exact after_measure measured build
    put_step shave_excess after_shave shave shave_of shave_first row_sizes candidates candidate_at
    candidate_data candidate_of measured_candidate step_ids trimmed_step get set delete key_eq
rows_left = refl

bound_response-Bounded_example :
    Bounded lib 20 false
      (λ id. false)
      result
      35
      (bound_response lib 20 false (λ id. false) result 35)
bound_response-Bounded_example = bound_response-Bounded lib 20 false (λ id. false) result 35

bound_response-Prefixes_example :
    Prefixes result (bound_response lib 20 false (λ id. false) result 35).0
bound_response-Prefixes_example = bound_response-Prefixes lib 20 false (λ id. false) result 35
