-- ===== src/Composite/Pages/Serving.antt =====
-- fetchPaginated of internal/composite/executor.go with a broker that serves a fixed list of rows page
-- by page and whose cursor is a position in that list.
use Prim.Native.Nat.{min}
use solace_broker_mcp.Common.{
  ℕ, ◌+◌, ◌-◌, ◌≤◌, ◌<◌, String, key_eq, Bool, true, false, not, ◌||◌, List, [], ◌++◌, ◌≡◌, refl,
  sym, ap, ◌∙◌, ltb, if◌then◌else◌, length, take, drop, arith, length-take, length-drop, inl, inr,
  Bool-cases, take_all, drop_all, take_split, drop-drop, append_assoc,
}
use solace_broker_mcp.Common.Result.{Result, ok}
use solace_broker_mcp.Common.Json.{Json, Object, set, text, get-set}
use solace_broker_mcp.Composite.Pages.{
  Lib, Fetched, extract_data_items, extract_next_page_uri, text_at, text_of, is_empty,
  cursor_from_next_uri, offer_cursor,
}

-- The position that a request's `cursor` stands for; none is the first row.
abbrev pub start_of : (String → ℕ) → Object → ℕ
start_of position args =
    if is_empty (text_at "cursor" args) then 0 else position (text_at "cursor" args)

-- The rows of each answer are the next ones, at least one where some are left, and it names the row
-- after them by a URI where that exists.
pub record Serves (lib : Lib) (rows : List Json) (answer : ℕ → Object → Result String Object)
    : Type 0 where
  pub position : String → ℕ
  pub size : Object → ℕ
  pub uri_at : ℕ → String
  pub cursor_at : ℕ → String
  pub size_pos : (args : Object) → 0 < size args
  pub uri_set : (p : ℕ) → p < length rows → is_empty (uri_at p) ≡ false
  pub cursor_of_uri : (p : ℕ) → p < length rows → lib.parse_cursor (uri_at p) ≡ ok (cursor_at p)
  pub cursor_set : (p : ℕ) → p < length rows → is_empty (cursor_at p) ≡ false
  pub position_of_cursor : (p : ℕ) → p < length rows → position (cursor_at p) ≡ p
  pub page :
      (n : ℕ) (args : Object)
      → (response : Object) × (answer n args ≡ ok response)
        × (extract_data_items response ≡ take (size args) (drop (start_of position args) rows))
        × (extract_next_page_uri response ≡ (
            if ltb (start_of position args + size args) (length rows)
            then uri_at (start_of position args + size args)
            else ""))

pub text_at-set_same : (k v : String) (o : Object) → text_at k (set k (text v) o) ≡ v
text_at-set_same k v o = ground (arith, get-set k k (text v) o)

pub cursor-set_count :
    (v : String) (o : Object) → text_at "cursor" (set "count" (text v) o) ≡ text_at "cursor" o
unfolding key_eq
cursor-set_count v o = ap text_of (get-set "count" "cursor" (text v) o)

count-set_cursor :
    (v : String) (o : Object) → text_at "count" (set "cursor" (text v) o) ≡ text_at "count" o
unfolding key_eq
count-set_cursor v o = ap text_of (get-set "cursor" "count" (text v) o)

module _ {lib : Lib} {rows : List Json} {answer : ℕ → Object → Result String Object}
    (broker : Serves lib rows answer) where
  -- The next `n` rows from a position on, after those that there were.
  unfoldable pub Collected : List Json → ℕ → ℕ → Fetched → Type 0
  Collected all q n f =
      (f.all_items ≡ all ++ take n (drop q rows))
      × (f.truncated ≡ ltb (q + n) (length rows))
      × (f.page_limit_hit ≡ false)
      × (is_empty f.next_cursor ≡ false → broker.position f.next_cursor ≡ q + n)

  unfoldable pub next_uri : ℕ → String
  next_uri p = if ltb p (length rows) then broker.uri_at p else ""

  pub cursor_from_here :
      (p : ℕ)
      → p < length rows
      → cursor_from_next_uri lib (broker.uri_at p) ≡ ok (broker.cursor_at p)
  unfolding cursor_from_next_uri
  cursor_from_here p l = ground (arith, broker.cursor_of_uri p l, broker.cursor_set p l)

  pub next_uri_here : (p : ℕ) → p < length rows → next_uri p ≡ broker.uri_at p
  unfolding next_uri
  next_uri_here p l = ground arith

  pub next_uri_end : (p : ℕ) → length rows ≤ p → next_uri p ≡ ""
  unfolding next_uri
  next_uri_end p l = ground arith

  pub empty_text : is_empty "" ≡ true
  unfolding key_eq
  empty_text = refl

  -- The cursor of the next page, where there is one and the page is as large as was asked for.
  abbrev pub Offer : Bool → ℕ → Type 0
  Offer exact p =
      (cursor : String) × (offer_cursor lib exact (next_uri p) ≡ ok cursor)
      × (is_empty cursor ≡ false
          → (exact ≡ true) × (p < length rows) × (broker.position cursor ≡ p))
      × (exact ≡ true → p < length rows → is_empty cursor ≡ false)

  pub offered : (exact : Bool) (p : ℕ) → Offer exact p
  unfolding offer_cursor
  offered exact p = elim (Bool-cases (ltb p (length rows))) as (λ _. Offer exact p) [
    | inl e ↦ elim (Bool-cases exact) as (λ _. Offer exact p) [
      | inl x ↦
          let l : p < length rows = ground arith in
          (
            broker.cursor_at p,
            rw (next_uri_here p l, x, broker.uri_set p l) (cursor_from_here p l),
            (λ c. (x, l, broker.position_of_cursor p l)),
            λ _ _. broker.cursor_set p l,
          )
      | inr x ↦ ("", rw x refl, (λ c. ground (arith, empty_text)), λ y. ground arith)
    ]
    | inr e ↦
        let l : length rows ≤ p = ground arith in
        (
          "",
          rw (next_uri_end p l) (ground (arith, empty_text)),
          (λ c. ground (arith, empty_text)),
          λ y l'. absurd (omega arith),
        )
  ]

  pub page_length : (q s : ℕ) → length (take s (drop q rows)) ≡ min s (length rows - q)
  page_length q s = omega (arith, length-take s (drop q rows), length-drop q rows)

  pub uri_is_empty : (p : ℕ) → not (is_empty (next_uri p)) ≡ ltb p (length rows)
  uri_is_empty p = elim (Bool-cases (ltb p (length rows))) [
    | inl e ↦
        let l : p < length rows = ground arith in rw (next_uri_here p l, broker.uri_set p l, e) refl
    | inr e ↦ let l : length rows ≤ p = ground arith in rw (next_uri_end p l, empty_text, e) refl
  ]

  pub truncated_here :
      (q rem s : ℕ)
      → 0 < rem
      → rem ≤ length (take s (drop q rows))
      → (ltb rem (length (take s (drop q rows))) || not (is_empty (next_uri (q + s))))
        ≡ ltb (q + rem) (length rows)
  truncated_here q rem s pos h = rw (uri_is_empty (q + s)) (ground (arith, page_length q s))

  pub drop_none : (q n : ℕ) → length rows ≤ q → take n (drop q rows) ≡ []
  drop_none q n h = ap (take n) (drop_all q rows h) ∙ take_all n [] (omega arith)

  pub Collected_more :
      (all all' : List Json) (q rem s : ℕ) (f : Fetched)
      → s < rem
      → all' ≡ all ++ take s (drop q rows)
      → Collected all' (q + s) (rem - s) f
      → Collected all q rem f
  unfolding Collected
  Collected_more all all' q rem s f l e h =
      let at_end : q + s + (rem - s) ≡ q + rem = omega arith in
      (
        h.0
            ∙ ap (λ l. l ++ take (rem - s) (drop (q + s) rows)) e
            ∙ append_assoc all (take s (drop q rows)) (take (rem - s) (drop (q + s) rows))
            ∙ ap (λ l. all ++ l)
                (ap (λ d. take s (drop q rows) ++ take (rem - s) d) (sym (drop-drop s q rows))
                  ∙ take_split s (rem - s) (drop q rows)
                  ∙ ap (λ n. take n (drop q rows)) (omega arith)),
        h.1 ∙ ap (λ p. ltb p (length rows)) at_end,
        h.2,
        λ c. h.3 c ∙ at_end,
      )
