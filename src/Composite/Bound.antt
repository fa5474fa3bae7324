-- ===== src/Composite/Bound.antt =====
-- internal/composite/bound.go: the rows of a response are cut until its text fits. The length of the
-- text, of the whole and of a row, is what `json.MarshalIndent` gives and an argument here, as are
-- `strconv.Itoa` and `sort.Strings`.
mod Tests
pub mod Passes
pub mod Fits
pub mod Rows
pub mod Idle
use Prim.Native.String.{◌++◌ as push, len, slice}
use solace_broker_mcp.Common.{
  ℕ, zero, suc, ◌+◌, ◌-◌, String, Bool, true, false, not, ◌&&◌, ◌||◌, List, [], ◌∷◌, ◌++◌, Option,
  none, some, ltb, leb, ◌==◌, if◌then◌else◌, length, take, get_elem?,
}
use solace_broker_mcp.Common.Texts.{is_text, ends_with}
use solace_broker_mcp.Common.Json.{
  Number, Json, null, boolean, number, text, array, object, Object, end, field, items, array_of,
  entries, get, set, delete,
}
use solace_broker_mcp.Composite.Pages.{text_at, is_empty}
use solace_broker_mcp.Composite.Pages.Advice.{max_results_advice, cursor_advice}

pub record BoundReport : Type 0 where
  pub truncated : Bool
  pub unbounded : Bool
  pub omitted_items : ℕ
  pub trimmed_steps : List String

abbrev pub untouched : BoundReport
untouched = record { truncated = false; unbounded = false; omitted_items = 0; trimmed_steps = [] }

pub record Candidate : Type 0 where
  pub id : String
  pub step : Object
  pub items : List Json
  pub sizes : List ℕ
  pub keep : ℕ
  pub bytes : ℕ

pub record Lib : Type 0 where
  pub itoa : ℕ → String
  pub sort : List String → List String
  pub text_size : Object → Option ℕ
  pub row_size : Json → Option ℕ

abbrev pub or_zero : Option ℕ → ℕ
or_zero none = 0
or_zero (some n) = n

-- `strings.TrimSuffix`.
unfoldable pub trim_suffix : String → String → String
trim_suffix s suffix = if ends_with s suffix then slice s 0 (len s - len suffix) else s

-- The sizes of the rows, each with what stands between it and the next, if all can be measured.
unfoldable pub row_sizes : Lib → List Json → Option (List ℕ)
row_sizes lib [] = some []
row_sizes lib (row ∷ rows) = elim (lib.row_size row) [
  | none ↦ none
  | some n ↦ elim (row_sizes lib rows) [ none ↦ none | some ns ↦ some ((n + 2 + 6) ∷ ns) ]
]

abbrev pub sum : List ℕ → ℕ
sum [] = 0
sum (n ∷ ns) = n + sum ns

pub measured_candidate : String → Object → List Json → Option (List ℕ) → List Candidate
measured_candidate id step rows none = []
measured_candidate id step rows (some sizes) =
    record {
      id = id;
      step = step;
      items = rows;
      sizes = sizes;
      keep = length rows;
      bytes = sum sizes;
    }
    ∷ []

pub candidate_of : Lib → String → Object → List Json → List Candidate
candidate_of lib id step [] = []
candidate_of lib id step (row ∷ rows) =
    measured_candidate id step (row ∷ rows) (row_sizes lib (row ∷ rows))

pub candidate_data : Lib → String → Object → Option Json → List Candidate
candidate_data lib id step (some (array a)) = candidate_of lib id step (items a)
candidate_data lib id step _ = []

pub candidate_at : Lib → String → Option Json → List Candidate
candidate_at lib id (some (object step)) = candidate_data lib id step (get "data" step)
candidate_at lib id _ = []

pub candidates : Lib → Object → List String → List Candidate
candidates lib out [] = []
candidates lib out (id ∷ ids) = candidate_at lib id (get id out) ++ candidates lib out ids

unfoldable pub step_ids : Bool → Object → List String
step_ids has_summary end = []
step_ids has_summary (field id v out) =
    if has_summary && is_text id "summary"
    then step_ids has_summary out
    else id ∷ step_ids has_summary out

unfoldable pub bound_message : Lib → (kept total limit : ℕ) → Bool → String
bound_message lib kept total limit has_summary =
    push "Response size limit reached: this step returned " (
      push (lib.itoa kept) (
        push " of " (
          push (lib.itoa total) (
            push " rows (" (
              push (lib.itoa (total - kept)) (
                push " omitted) to stay under " (
                  push (lib.itoa limit) (
                    push " bytes." (
                      push
                        (if has_summary
                          then " The summary was computed before the rows were omitted and still covers every row fetched."
                          else "")
                        " The omitted rows are not in this response; to see specific ones, narrow the query (for example to one queue, client or Message VPN).")))))))))

unfoldable pub bound_note :
    Lib → String → (kept total limit : ℕ) → (has_summary resumable : Bool) → String
bound_note lib prev kept total limit has_summary resumable =
    let note = push (bound_message lib kept total limit has_summary) (
      if resumable && ltb 0 kept
      then push
          " To page on without skipping them, repeat this call with the same cursor (none for the first page) and maxResults at most "
          (push (lib.itoa kept) "; its nextCursor starts right after the rows returned.")
      else "") in
    let earlier =
      trim_suffix (trim_suffix prev (max_results_advice lib.itoa)) (cursor_advice lib.itoa) in
    if is_empty earlier then note else push earlier (push " " note)

abbrev has_cursor : Object → Bool
has_cursor step = elim (get "nextCursor" step) [ none ↦ false | some _ ↦ true ]

pub trimmed_step : Lib → Candidate → (limit : ℕ) → (has_summary resumable : Bool) → Object
trimmed_step lib c limit has_summary resumable =
    set "truncatedMessage"
      (text (
        bound_note lib (text_at "truncatedMessage" c.step) c.keep (length c.items) limit has_summary
          (resumable || has_cursor c.step)))
      (set "omittedItems"
        (number (record { negative = false; whole = length c.items - c.keep; fraction = "" }))
        (set "truncated" (boolean true)
          (set "data" (array (array_of (take c.keep c.items))) (delete "nextCursor" c.step))))

-- A row less of the largest candidate that has one, of several that are as large the first; with the
-- size of that candidate and of the row.
pub record Shaved : Type 0 where
  pub cands : List Candidate
  pub largest : ℕ
  pub freed : ℕ

abbrev last_size : Candidate → ℕ
last_size c = or_zero (get_elem? c.sizes (c.keep - 1))

pub shave_first : Candidate → List Candidate → Shaved
shave_first c cs = record {
  cands = record c { keep = c.keep - 1; bytes = c.bytes - last_size c } ∷ cs;
  largest = c.bytes;
  freed = last_size c;
}

pub shave_of : Candidate → List Candidate → Option Shaved → Option Shaved
shave_of c cs none = if ltb 0 c.keep then some (shave_first c cs) else none
shave_of c cs (some r) =
    if ltb 0 c.keep && leb r.largest c.bytes
    then some (shave_first c cs)
    else some (record r { cands = c ∷ r.cands })

pub shave : List Candidate → Option Shaved
shave [] = none
shave (c ∷ cs) = shave_of c cs (shave cs)
