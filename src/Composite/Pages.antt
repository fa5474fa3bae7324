-- ===== src/Composite/Pages.antt =====
-- fetchPaginated of internal/composite/executor.go. The broker behind `client.Execute`, and the
-- functions of `strconv` and `net/url`, are arguments: the broker's answer may depend on the page.
pub mod Advice
pub mod Bounds
pub mod Serving
pub mod Turns
pub mod Scan
use solace_broker_mcp.Common.{
  ℕ, zero, suc, ◌+◌, ◌-◌, String, key_eq, Bool, true, false, not, ◌&&◌, ◌||◌, List, [], ◌∷◌, ◌++◌,
  Option, none, some, ltb, leb, if◌then◌else◌, length, take, ite, ◌==◌,
}
use Prim.Native.String.{◌++◌ as push}
use solace_broker_mcp.Composite.Pages.Advice.{cap_max, max_results_advice, cursor_advice}
use solace_broker_mcp.Common.Result.{Result, ok, err, ◌>>=◌}
use solace_broker_mcp.Common.Json.{
  Number, Json, null, boolean, number, text, array, object, Object, end, field, items, array_of,
  get, set,
}

abbrev pub default_max : ℕ
default_max = 100

pub data FetchError : Type 0 where
  broker_error : String → FetchError
  cursor_parse : (cause uri : String) → FetchError
  cursor_empty : (uri : String) → FetchError

-- `int(v)` of a number past the greatest `int` is the greatest `int` on some platforms (`saturates`)
-- and the least one on others.
unfoldable pub resolve_max_results : Bool → Object → ℕ
resolve_max_results saturates params = elim (get "maxResults" params) [
  | some (number n) ↦
      if n.negative || n.whole == 0 || leb 9223372036854775808 n.whole && not saturates
      then default_max
      else if ltb cap_max n.whole
      then cap_max
      else n.whole
  | _ ↦ default_max
]

unfoldable pub extract_data_items : Object → List Json
extract_data_items response = elim (get "data" response) [ some (array a) ↦ items a | _ ↦ [] ]

abbrev object_at : String → Object → Option Object
object_at k o = elim (get k o) [ some (object m) ↦ some m | _ ↦ none ]

abbrev pub text_of : Option Json → String
text_of v = elim v [ some (text s) ↦ s | _ ↦ "" ]

-- The string of a key, and the empty one when there is none.
abbrev pub text_at : String → Object → String
text_at k o = text_of (get k o)

unfoldable pub extract_next_page_uri : Object → String
extract_next_page_uri response = elim (object_at "meta" response) [
  | none ↦ ""
  | some meta ↦ elim (object_at "paging" meta) [
    | none ↦ ""
    | some paging ↦ text_at "nextPageUri" paging
  ]
]

-- What `strconv` and `net/url` do: `Itoa`, `Atoi` without its error, and the `cursor` of a URI's query.
pub record Lib : Type 0 where
  pub itoa : ℕ → String
  pub atoi : String → ℕ
  pub parse_cursor : String → Result String String

abbrev pub is_empty : String → Bool
is_empty s = elim (key_eq s "") [ yes _ ↦ true | no _ ↦ false ]

pub record Fetched : Type 0 where
  pub all_items : List Json
  pub truncated : Bool
  pub page_limit_hit : Bool
  pub next_cursor : String

-- A turn of the loop ends with a result, or goes on with the items so far and the next arguments.
pub data Turn : Type 0 where
  done : Fetched → Turn
  more : List Json → Object → Turn

module _ (lib : Lib) where
  unfoldable pub cursor_from_next_uri : String → Result FetchError String
  cursor_from_next_uri uri = elim (lib.parse_cursor uri) [
    | err cause ↦ err (cursor_parse cause uri)
    | ok cursor ↦ if is_empty cursor then err (cursor_empty uri) else ok cursor
  ]

  -- The cursor for the caller, where the page was not larger than asked for.
  unfoldable pub offer_cursor : Bool → String → Result FetchError String
  offer_cursor exact uri = if exact && not (is_empty uri) then cursor_from_next_uri uri else ok ""

module _ (lib : Lib) (resumable : Bool) (max_results page_size : ℕ) (base_args : Object) where
  -- The arguments of a request, with a smaller count where less is still wanted.
  unfoldable pub page_args : ℕ → Object → Object
  page_args remaining args =
      if resumable && ltb remaining page_size
      then set "count" (text (lib.itoa remaining)) args
      else args

  unfoldable pub on_last_page : List Json → ℕ → List Json → String → Result FetchError Turn
  on_last_page all remaining page uri =
      offer_cursor lib (resumable && length page == remaining) uri >>= λ cursor. ok (
        done (record {
          all_items = all ++ take remaining page;
          truncated = ltb remaining (length page) || not (is_empty uri);
          page_limit_hit = false;
          next_cursor = cursor;
        }))

  pub finished : List Json → Fetched
  finished all = record {
    all_items = all;
    truncated = false;
    page_limit_hit = false;
    next_cursor = "";
  }

  unfoldable pub on_next_page : List Json → List Json → String → Result FetchError Turn
  on_next_page all page uri =
      if is_empty uri
      then ok (done (finished (all ++ page)))
      else (cursor_from_next_uri lib uri >>= λ cursor.
          ok (more (all ++ page) (set "cursor" (text cursor) base_args)))

  -- The rows of a page and the URI of the next one, with the number of rows that are still wanted.
  unfoldable pub on_rows : List Json → ℕ → List Json → String → Result FetchError Turn
  on_rows all remaining page uri =
      if length page == 0
      then ok (done (finished all))
      else if leb remaining (length page)
      then on_last_page all remaining page uri
      else on_next_page all page uri

  unfoldable pub on_page : List Json → Object → Result FetchError Turn
  on_page all response =
      on_rows all (max_results - length all) (extract_data_items response)
        (extract_next_page_uri response)

  unfoldable pub on_answer : List Json → Result String Object → Result FetchError Turn
  on_answer all (err e) = err (broker_error e)
  on_answer all (ok response) = on_page all response

  -- A request, and what the loop makes of its answer.
  unfoldable pub request :
      (ℕ → Object → Result String Object) → ℕ → List Json → Object → Result FetchError Turn
  request answer n all args = on_answer all (answer n (page_args (max_results - length all) args))

  unfoldable pub go_on :
      (List Json → Object → Result FetchError Fetched) → Turn → Result FetchError Fetched
  go_on next (done f) = ok f
  go_on next (more all args) = next all args

  -- The loop, with the number of pages that are still allowed and the number of this one.
  unfoldable pub pages :
      (ℕ → Object → Result String Object) → ℕ → ℕ → List Json → Object → Result FetchError Fetched
  pages answer zero n all args =
      ok (record { all_items = all; truncated = true; page_limit_hit = true; next_cursor = "" })
  pages answer (suc fuel) n all args =
      request answer n all args >>= go_on (pages answer fuel (suc n))

-- The number in the arguments' `count`, a literal that the loader has checked.
abbrev pub count_of : Lib → Object → ℕ
count_of lib args = lib.atoi (text_at "count" args)

unfoldable pub first_args : Bool → Object → Object → Object
first_args resumable params base_args =
    if resumable && not (is_empty (text_at "cursor" params))
    then set "cursor" (text (text_at "cursor" params)) base_args
    else base_args

-- `fetchPaginated` on the arguments that `ResolveArgs` and `constructRequestBody` give.
unfoldable pub fetch_paginated :
    Lib
    → Bool
    → (ℕ → Object → Result String Object)
    → ℕ
    → (resumable : Bool) → (params base_args : Object) → Result FetchError Fetched
fetch_paginated lib saturates answer max_pages resumable params base_args =
    pages lib resumable (resolve_max_results saturates params) (count_of lib base_args) base_args
      answer max_pages 0 [] (first_args resumable params base_args)

module _ (lib : Lib) where
  unfoldable pub limited_to : ℕ → String
  limited_to max_results = push "Results limited to " (push (lib.itoa max_results) ".")

  unfoldable pub truncated_message : ℕ → ℕ → Fetched → String
  truncated_message max_results max_pages f =
      if not (is_empty f.next_cursor)
      then push (limited_to max_results) (cursor_advice lib.itoa)
      else if f.page_limit_hit
      then push "Pagination stopped after " (
          push (lib.itoa max_pages)
            " pages; result is incomplete. This usually indicates a broker issue with a persistent nextPageUri — narrow the query (e.g., by msgVpnName or a where filter) or contact your broker administrator.")
      else if leb cap_max max_results
      then push "More results exist but the maximum limit of "
          (push (lib.itoa cap_max) " has been reached. Not all results are shown.")
      else push (limited_to max_results) (max_results_advice lib.itoa)

  -- The step's result, `resumed` where the caller gave a cursor.
  unfoldable pub page_result : (resumed : Bool) → ℕ → ℕ → Fetched → Object
  page_result resumed max_results max_pages f =
      let found =
        field "data" (array (array_of f.all_items)) (field "truncated" (boolean f.truncated) end) in
      let with_resumed = if resumed then set "resumed" (boolean true) found else found in
      let with_cursor =
        if f.truncated && not (is_empty f.next_cursor)
        then set "nextCursor" (text f.next_cursor) with_resumed
        else with_resumed in
      if f.truncated
      then set "truncatedMessage" (text (truncated_message max_results max_pages f)) with_cursor
      else with_cursor
