-- ===== src/Composite/FanOut.antt =====
-- fetchFanOut of internal/composite/executor.go: a call for every row of an earlier step. The predicate
-- and the call of a row are arguments, and so are the order in which the rows' calls end and when the
-- context does.
pub mod Calls
pub mod Jobs
pub mod Rows
mod Tests
use solace_broker_mcp.Common.{
  ltb, length, ◌&&◌, ℕ, ◌+◌, String, Bool, true, false, List, [], ◌∷◌, ◌++◌, Option, none, some,
  ◌||◌, ◌==◌, if◌then◌else◌,
}
use solace_broker_mcp.Common.Texts.{is_text}
use solace_broker_mcp.Common.Integer.{ℤ, pos}
use solace_broker_mcp.Common.Result.{Result, ok, err, ◌>>=◌}
use solace_broker_mcp.Common.Json.{
  Json, number, text, array, null, object, boolean, Object, end, field, get, set, items,
}

pub data FanOutError : Type 0 where
  parent_not_array row_not_object key_missing key_not_string : FanOutError
  for_each_if_failed row_failed : (cause : String) → FanOutError
  duplicate_key : (key : String) → FanOutError

-- The rows of the parent's result, none where there is no `data` or it is nil.
unfoldable pub parent_rows : Option Json → Result FanOutError (List Json)
parent_rows none = ok []
parent_rows (some null) = ok []
parent_rows (some (array vs)) = ok (items vs)
parent_rows (some _) = err parent_not_array

-- A row whose call is made, under its key.
pub record Job : Type 0 where
  pub key : String
  pub row : Object

pub record Dispatched : Type 0 where
  pub jobs : List Job
  pub skipped : ℕ

unfoldable pub key_text : Option Json → Result FanOutError String
key_text none = err key_missing
key_text (some (text k)) = ok k
key_text (some _) = err key_not_string

-- Whether a key is in `seenKeys`, which has the keys of the jobs so far.
unfoldable pub seen : String → List Job → Bool
seen k [] = false
seen k (j ∷ js) = is_text k j.key || seen k js

unfoldable pub add_job : Dispatched → Object → String → Result FanOutError Dispatched
add_job d row k =
    if seen k d.jobs
    then err (duplicate_key k)
    else ok (record d { jobs = record { key = k; row = row } ∷ d.jobs })

unfoldable pub of_row :
    {A : Type 0} → (String → FanOutError) → Result String A → Result FanOutError A
of_row f (ok a) = ok a
of_row f (err e) = err (f e)

-- After a row: `gone` says whether the context `gCtx` has ended when a job is about to be started, by the
-- number of the jobs before it. If so the loop ends, and the jobs are those before the row.
unfoldable pub dispatch_on :
    (ℕ → Bool)
    → Dispatched
    → (Dispatched → Result FanOutError Dispatched)
    → Dispatched
    → Result FanOutError Dispatched
dispatch_on gone d next d' =
    if ltb (length d.jobs) (length d'.jobs) && gone (length d.jobs) then ok d else next d'

module _ (for_each_if : Object → Result String Bool) (for_each_key : String) where
  unfoldable pub add_row : Dispatched → Object → Bool → Result FanOutError Dispatched
  add_row d row false = ok (record d { skipped = d.skipped + 1 })
  add_row d row true = key_text (get for_each_key row) >>= add_job d row

  unfoldable pub dispatch_row : Dispatched → Json → Result FanOutError Dispatched
  dispatch_row d (object row) = of_row for_each_if_failed (for_each_if row) >>= add_row d row
  dispatch_row d _ = err row_not_object

  -- The loop over the rows, which ends before a job is started where the context has ended.
  unfoldable pub dispatch_rows : (ℕ → Bool) → Dispatched → List Json → Result FanOutError Dispatched
  dispatch_rows gone d [] = ok d
  dispatch_rows gone d (r ∷ rows) =
      dispatch_row d r >>= dispatch_on gone d (λ d'. dispatch_rows gone d' rows)

module _ (run : Object → Result String Object) where
  -- The calls, in the order in which they end; each puts its answer under its key.
  unfoldable pub end_calls : List Job → Object → Result FanOutError Object
  end_calls [] by_key = ok by_key
  end_calls (j ∷ js) by_key =
      of_row row_failed (run j.row) >>= λ answer. end_calls js (set j.key (object answer) by_key)

-- The step's result: the number of the rows that were skipped only where there are some.
unfoldable pub fan_out_result : (ℕ → Json) → ℕ → Object → Object
fan_out_result int skipped by_key =
    field "byKey" (object by_key) (if skipped == 0 then end else field "skipped" (int skipped) end)

module _ (for_each_if : Object → Result String Bool) (run : Object → Result String Object)
    (gone : ℕ → Bool) (order : List Job → List Job) (int : ℕ → Json) where
  unfoldable pub finish_fan_out : Dispatched → Result FanOutError Object
  finish_fan_out d =
      end_calls run (order d.jobs) end >>= λ by_key. ok (fan_out_result int d.skipped by_key)

  -- The step, from the rows of its parent; the calls end in the order that `order` gives.
  unfoldable pub fetch_fan_out : String → Option Json → Result FanOutError Object
  fetch_fan_out for_each_key parent_data = parent_rows parent_data >>= λ rows.
      (dispatch_rows for_each_if for_each_key gone (record { jobs = []; skipped = 0 }) rows
        >>= finish_fan_out)
