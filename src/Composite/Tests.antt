-- ===== src/Composite/Tests.antt =====
-- Runs of the composite executor on small inputs, and an instance of each of its theorems.
use solace_broker_mcp.Common.{
  ℕ, zero, suc, ◌+◌, ◌≤◌, ◌<◌, ◌≡◌, refl, String, key_eq, Bool, true, false, List, [], ◌∷◌, ◌++◌,
  arith, ltb, if◌then◌else◌, take, drop,
}
use solace_broker_mcp.Common.Texts.{is_text}
use solace_broker_mcp.Common.Result.{Result, ok}
use solace_broker_mcp.Common.Json.{
  Json, number, text, array, object, Object, end, field, get, set, array_of, items-array_of,
}
use solace_broker_mcp.Composite.{Step, ExecutionBatch, group_steps, add_steps, add_step}
use solace_broker_mcp.Composite.Batches.{
  flatten, Grouped, alone, together, group_steps-flatten, group_steps-partition,
}
use solace_broker_mcp.Composite.Pages.{
  Lib, Fetched, extract_data_items, extract_next_page_uri, is_empty, text_at, pages, request,
  on_answer, on_page, on_rows, on_last_page, on_next_page, page_args, offer_cursor,
  cursor_from_next_uri, go_on, first_args, fetch_paginated, resolve_max_results,
}
use solace_broker_mcp.Composite.Pages.Bounds.{Within, fetch_paginated-Within}
use solace_broker_mcp.Composite.Pages.Serving.{Serves, start_of}
use solace_broker_mcp.Composite.Pages.Scan.{Page, fetch_paginated-Page, resumes}

abbrev step_named : String → Bool → Step
step_named id parallel = record {
  id = id;
  operation = "monitor/getMsgVpnQueue";
  select = [];
  parallel = parallel;
  follow_pages = false;
  for_each = "";
  for_each_if = "";
  for_each_key = "";
  concurrency = 0;
  optional_args = [];
  body_checks = [];
  resumable = false;
}

abbrev four_steps : List Step
four_steps =
    step_named "a" false ∷ step_named "b" true ∷ step_named "c" true ∷ step_named "d" false ∷ []

abbrev three_batches : List ExecutionBatch
three_batches =
    record { sequential = true; steps = step_named "a" false ∷ [] }
    ∷ record { sequential = false; steps = step_named "b" true ∷ step_named "c" true ∷ [] }
    ∷ record { sequential = true; steps = step_named "d" false ∷ [] }
    ∷ []

three_batches-Grouped : Grouped three_batches
three_batches-Grouped = (
  alone (step_named "a" false) refl,
  refl,
  (
    together (step_named "b" true) (step_named "c" true ∷ []) (refl, (refl, tt)),
    refl,
    (alone (step_named "d" false) refl, refl, tt),
  ),
)

group_steps_test : group_steps four_steps ≡ three_batches
unfolding group_steps add_steps add_step
group_steps_test = refl

group_steps-flatten_example : group_steps (flatten three_batches) ≡ three_batches
group_steps-flatten_example = group_steps-flatten three_batches three_batches-Grouped

group_steps-partition_example :
    (flatten (group_steps four_steps) ≡ four_steps) × Grouped (group_steps four_steps)
group_steps-partition_example = group_steps-partition four_steps

-- A broker with three rows that serves one at a time.
abbrev rows : List Json
rows = text "x" ∷ text "y" ∷ text "z" ∷ []

abbrev position_of : String → ℕ
position_of c = if is_text c "1" then 1 else if is_text c "2" then 2 else 0

abbrev cursor_at : ℕ → String
cursor_at zero = "0"
cursor_at (suc zero) = "1"
cursor_at (suc (suc p)) = "2"

abbrev lib : Lib
lib = record { itoa = λ n. "1"; atoi = λ s. 1; parse_cursor = λ uri. ok uri }

abbrev next_page : Bool → String → Object
next_page false uri = end
next_page true uri =
    field "meta" (object (field "paging" (object (field "nextPageUri" (text uri) end)) end)) end

abbrev page_from : ℕ → Object
page_from p =
    field "data" (array (array_of (take 1 (drop p rows))))
      (next_page (ltb (p + 1) 3) (cursor_at (p + 1)))

abbrev answer : ℕ → Object → Result String Object
answer n args = ok (page_from (start_of position_of args))

cursor_facts : (p : ℕ) → p < 3 → (is_empty (cursor_at p) ≡ false) × (position_of (cursor_at p) ≡ p)
unfolding key_eq
cursor_facts zero h = (refl, refl)
cursor_facts (suc zero) h = (refl, refl)
cursor_facts (suc (suc zero)) h = (refl, refl)
cursor_facts (suc (suc (suc p))) h = absurd (omega arith)

page_rows : (p : ℕ) → extract_data_items (page_from p) ≡ take 1 (drop p rows)
unfolding extract_data_items get key_eq
page_rows p = items-array_of (take 1 (drop p rows))

page_uri :
    (v : Json) (b : Bool) (uri : String)
    → extract_next_page_uri (field "data" v (next_page b uri)) ≡ (if b then uri else "")
unfolding extract_next_page_uri get key_eq
page_uri v true uri = refl
page_uri v false uri = refl

abbrev broker : Serves lib rows answer
broker = record {
  position = position_of;
  size = λ args. 1;
  uri_at = cursor_at;
  cursor_at = cursor_at;
  size_pos = λ args. omega arith;
  uri_set = λ p h. (cursor_facts p h).0;
  cursor_of_uri = λ p h. refl;
  cursor_set = λ p h. (cursor_facts p h).0;
  position_of_cursor = λ p h. (cursor_facts p h).1;
  page = λ n args. (
    page_from (start_of position_of args),
    refl,
    page_rows (start_of position_of args),
    page_uri _ (ltb (start_of position_of args + 1) 3) (cursor_at (start_of position_of args + 1)),
  );
}

abbrev asking : ℕ → String → Object
asking n cursor =
    field "maxResults" (number (record { negative = false; whole = n; fraction = "" }))
      (field "cursor" (text cursor) end)

abbrev base_args : Object
base_args = field "count" (text "1") end

abbrev first_page : Fetched
first_page = record {
  all_items = text "x" ∷ text "y" ∷ [];
  truncated = true;
  page_limit_hit = false;
  next_cursor = "2";
}

first_run : fetch_paginated lib false answer 1000 true (asking 2 "") base_args ≡ ok first_page
unfolding fetch_paginated pages request on_answer on_page on_rows on_last_page on_next_page
    page_args offer_cursor cursor_from_next_uri go_on first_args resolve_max_results
    extract_data_items extract_next_page_uri get set key_eq
first_run = refl

fetch_paginated-Within_example : Within 2 first_page × (0 < 2) × (2 ≤ 500)
unfolding resolve_max_results get key_eq
fetch_paginated-Within_example =
    fetch_paginated-Within lib false answer 1000 true (asking 2 "") base_args first_page first_run

fetch_paginated-Page_example :
    (f : Fetched) × (fetch_paginated lib false answer 1000 true (asking 2 "") base_args ≡ ok f)
    × Page broker false 1000 true base_args
        (asking 2 "")
        (start_of position_of (first_args true (asking 2 "") base_args))
        f
fetch_paginated-Page_example =
    fetch_paginated-Page broker false 1000 true base_args (asking 2 "") (omega arith)

cursor_there : text_at "cursor" (asking 7 "2") ≡ "2"
unfolding get key_eq
cursor_there = refl

two_set : is_empty "2" ≡ false
unfolding key_eq
two_set = refl

resumes_example :
    (f : Fetched) × (fetch_paginated lib false answer 1000 true (asking 7 "2") base_args ≡ ok f)
    × (first_page.all_items ++ f.all_items
        ≡ take
            (resolve_max_results false (asking 2 "") + resolve_max_results false (asking 7 "2"))
            (drop (start_of position_of (first_args true (asking 2 "") base_args)) rows))
resumes_example =
    resumes broker false 1000 base_args (asking 2 "") (asking 7 "2") first_page (omega arith)
      first_run two_set cursor_there
