-- ===== src/Composite/Pages/Bounds.antt =====
-- fetchPaginated of internal/composite/executor.go, whatever the broker answers: how much it returns,
-- and when it offers a cursor.
use solace_broker_mcp.Common.{
  ℕ, zero, suc, ◌-◌, ◌≤◌, ◌<◌, String, key_eq, Bool, true, false, ◌&&◌, List, [], ◌++◌, ◌≡◌, leb,
  length, take, ◌==◌, arith, length-append, length-take, if_cases,
}
use solace_broker_mcp.Common.Result.{Result, ok, err, OnOk, OnOk-bind, OnOk-at}
use solace_broker_mcp.Common.Json.{Json, Object, get, set, text}
use solace_broker_mcp.Composite.Pages.Advice.{cap_max}
use solace_broker_mcp.Composite.Pages.{
  Lib, Fetched, Turn, done, more, resolve_max_results, extract_data_items, is_empty,
  cursor_from_next_uri, offer_cursor, on_last_page, on_next_page, on_rows, on_page, pages, request,
  on_answer, go_on, finished, fetch_paginated,
}

-- At most the wanted number of items, exactly that many where a cursor is offered, and then more exist.
abbrev pub Within : ℕ → Fetched → Type 0
Within max f =
    (length f.all_items ≤ max)
    × (is_empty f.next_cursor ≡ false → (length f.all_items ≡ max) × (f.truncated ≡ true))

no_cursor : {A : Type 0} → is_empty "" ≡ false → A
unfolding key_eq
no_cursor c = absurd cc

abbrev TurnWithin : ℕ → Turn → Type 0
TurnWithin max (done f) = Within max f
TurnWithin max (more all args) = length all < max

module _ (lib : Lib) (resumable : Bool) (max page_size : ℕ) (base_args : Object) where
  offer_cursor_exact :
      (exact : Bool) (uri cursor : String)
      → offer_cursor lib exact uri ≡ ok cursor
      → is_empty cursor ≡ false
      → (exact ≡ true) × (is_empty uri ≡ false)
  unfolding offer_cursor
  offer_cursor_exact exact uri cursor h e = ground arith

  on_last_page-Within :
      (all page : List Json) (uri : String)
      → length all < max
      → max - length all ≤ length page
      → OnOk
          (TurnWithin max)
          (on_last_page lib resumable max page_size base_args all (max - length all) page uri)
  unfolding on_last_page
  on_last_page-Within all page uri l p = OnOk-bind (TurnWithin max) _ _ (λ cursor e.
      let exact = offer_cursor_exact (resumable && length page == max - length all) uri cursor e in
      let long : length (all ++ take (max - length all) page) ≡ max = omega (
        arith,
        length-append all (take (max - length all) page),
        length-take (max - length all) page,
      ) in
      (omega arith, λ c. (long, ground (arith, exact c))))

  on_next_page-Within :
      (all page : List Json) (uri : String)
      → length page < max - length all
      → OnOk (TurnWithin max) (on_next_page lib resumable max page_size base_args all page uri)
  unfolding on_next_page finished
  on_next_page-Within all page uri l =
      if_cases (OnOk (TurnWithin max)) (is_empty uri) _ _
        (λ e. (omega (arith, length-append all page), λ c. no_cursor c))
        (λ e.
          OnOk-bind (TurnWithin max) (cursor_from_next_uri lib uri)
            (λ cursor. ok (more (all ++ page) (set "cursor" (text cursor) base_args)))
            (λ cursor f. omega (arith, length-append all page)))

  on_page-Within :
      (all : List Json) (response : Object)
      → length all < max
      → OnOk (TurnWithin max) (on_page lib resumable max page_size base_args all response)
  unfolding on_page on_rows finished
  on_page-Within all response l =
      if_cases (OnOk (TurnWithin max)) (length (extract_data_items response) == 0) _ _
        (λ e. (omega arith, λ c. no_cursor c))
        (λ e.
          if_cases (OnOk (TurnWithin max))
            (leb (max - length all) (length (extract_data_items response))) _ _
            (λ f. on_last_page-Within all (extract_data_items response) _ l (ground arith))
            (λ f. on_next_page-Within all (extract_data_items response) _ (ground arith)))

  answer-Within :
      (all : List Json) (r : Result String Object)
      → length all < max
      → OnOk (TurnWithin max) (on_answer lib resumable max page_size base_args all r)
  unfolding on_answer
  answer-Within all (err e) l = tt
  answer-Within all (ok response) l = on_page-Within all response l

  request-Within :
      (answer : ℕ → Object → Result String Object) (n : ℕ) (all : List Json) (args : Object)
      → length all < max
      → OnOk (TurnWithin max) (request lib resumable max page_size base_args answer n all args)
  unfolding request
  request-Within answer n all args l = answer-Within all _ l

  pages-Within :
      (answer : ℕ → Object → Result String Object) (fuel n : ℕ) (all : List Json) (args : Object)
      → length all < max
      → OnOk (Within max) (pages lib resumable max page_size base_args answer fuel n all args)
  unfolding pages go_on
  pages-Within answer zero n all args l = (omega arith, λ c. no_cursor c)
  pages-Within answer (suc fuel) n all args l =
      OnOk-bind (Within max) (request lib resumable max page_size base_args answer n all args) _
        (λ t e.
          elim t
              as (λ u.
                TurnWithin max u
                → OnOk (Within max) (
                    go_on lib resumable max page_size base_args
                      (pages lib resumable max page_size base_args answer fuel (suc n)) u)) [
                        | done f ↦ (λ h. h)
                        | more all' args' ↦ (λ h. pages-Within answer fuel (suc n) all' args' h)
                      ]
            (OnOk-at (TurnWithin max) _ t (request-Within answer n all args l) e))

pub resolve_max_results_pos :
    (saturates : Bool) (params : Object) → 0 < resolve_max_results saturates params
unfolding resolve_max_results get
resolve_max_results_pos saturates params = ground arith

pub resolve_max_results_le :
    (saturates : Bool) (params : Object) → resolve_max_results saturates params ≤ cap_max
unfolding resolve_max_results get
resolve_max_results_le saturates params = ground arith

-- What `fetch_paginated` returns has at most `maxResults` items, which is between 1 and 500. It offers
-- a cursor only when it returns that many and says that more exist.
pub fetch_paginated-Within :
    (lib : Lib) (saturates : Bool) (answer : ℕ → Object → Result String Object) (max_pages : ℕ)
    (resumable : Bool) (params base_args : Object) (f : Fetched)
    → fetch_paginated lib saturates answer max_pages resumable params base_args ≡ ok f
    → Within (resolve_max_results saturates params) f
      × (0 < resolve_max_results saturates params)
      × (resolve_max_results saturates params ≤ cap_max)
unfolding fetch_paginated
fetch_paginated-Within lib saturates answer max_pages resumable params base_args f e = (
  OnOk-at (Within (resolve_max_results saturates params)) _ f
      (pages-Within lib resumable (resolve_max_results saturates params) _ base_args answer
        max_pages 0 [] _ (resolve_max_results_pos saturates params))
      e,
  resolve_max_results_pos saturates params,
  resolve_max_results_le saturates params,
)
