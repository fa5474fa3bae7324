-- ===== src/Composite/Pages/Scan.antt =====
-- fetchPaginated of internal/composite/executor.go as a whole, with a broker that serves a fixed list of
-- rows: one call, and a call that goes on where another ended.
use solace_broker_mcp.Common.{
  ℕ, ◌≡◌, refl, ◌≤◌, ◌+◌, ◌++◌, ◌∙◌, sym, ap, Bool, true, false, not, List, [], length, take, drop,
  ltb, String, arith, drop-drop, take_split, if◌then◌else◌, subst,
}
use solace_broker_mcp.Common.Result.{Result, ok, ok_of}
use solace_broker_mcp.Common.Json.{Json, Object, set, text}
use solace_broker_mcp.Composite.Pages.Advice.{cap_max}
use solace_broker_mcp.Composite.Pages.{
  Lib, Fetched, fetch_paginated, resolve_max_results, first_args, is_empty, text_at, count_of,
}
use solace_broker_mcp.Composite.Pages.Bounds.{resolve_max_results_pos, resolve_max_results_le}
use solace_broker_mcp.Composite.Pages.Serving.{Serves, start_of, Collected, text_at-set_same}
use solace_broker_mcp.Composite.Pages.Turns.{collect}

module _ {lib : Lib} {rows : List Json} {answer : ℕ → Object → Result String Object}
    (broker : Serves lib rows answer) (saturates : Bool) (max_pages : ℕ) (resumable : Bool)
    (base_args : Object) where
  -- What a call returns that starts at row `p`: the next `maxResults` rows, as many of them as there
  -- are, whether more exist, and as the cursor the position after the last.
  abbrev pub Page : Object → ℕ → Fetched → Type 0
  Page params p f =
      let max = resolve_max_results saturates params in
      (f.all_items ≡ take max (drop p rows))
      × (f.truncated ≡ ltb (p + max) (length rows))
      × (f.page_limit_hit ≡ false)
      × (is_empty f.next_cursor ≡ false → broker.position f.next_cursor ≡ p + max)

  -- Where at least 500 pages are allowed, a call returns, and what it returns is the page from the row
  -- that its cursor stands for, however the broker cuts the rows into pages.
  pub fetch_paginated-Page :
      (params : Object)
      → cap_max ≤ max_pages
      → (f : Fetched) × (fetch_paginated lib saturates answer max_pages resumable params base_args
          ≡ ok f)
        × Page params (start_of broker.position (first_args resumable params base_args)) f
  unfolding fetch_paginated Collected
  fetch_paginated-Page params enough =
      let max = resolve_max_results saturates params in
      collect broker resumable max (count_of lib base_args) base_args max_pages 0 []
        (start_of broker.position (first_args resumable params base_args)) max
        (first_args resumable params base_args) (omega arith)
        (resolve_max_results_pos saturates params)
        (omega (arith, enough, resolve_max_results_le saturates params)) refl

module _ {lib : Lib} {rows : List Json} {answer : ℕ → Object → Result String Object}
    (broker : Serves lib rows answer) (saturates : Bool) (max_pages : ℕ) (base_args : Object) where
  start-first_args :
      (params : Object) (cursor : String)
      → text_at "cursor" params ≡ cursor
      → is_empty cursor ≡ false
      → start_of broker.position (first_args true params base_args) ≡ broker.position cursor
  unfolding first_args
  start-first_args params cursor e h =
      subst
        (λ c.
          start_of broker.position
            (if not (is_empty c) then set "cursor" (text c) base_args else base_args)
          ≡ broker.position cursor)
        (sym e)
        (subst
          (λ b.
            start_of broker.position
              (if not b then set "cursor" (text cursor) base_args else base_args)
            ≡ broker.position cursor)
          (sym h)
          (ap (λ c. if is_empty c then 0 else broker.position c)
              (text_at-set_same "cursor" cursor base_args)
            ∙ ap (λ b. if b then 0 else broker.position cursor) h))

  Page-of :
      (params : Object) (f : Fetched)
      → cap_max ≤ max_pages
      → fetch_paginated lib saturates answer max_pages true params base_args ≡ ok f
      → Page broker saturates max_pages true base_args params
          (start_of broker.position (first_args true params base_args))
          f
  Page-of params f enough e =
      let (g, d, h) =
        fetch_paginated-Page broker saturates max_pages true base_args params enough in
      subst
        (Page broker saturates max_pages true base_args params
          (start_of broker.position (first_args true params base_args)))
        (ok_of (sym d ∙ e)) h

  -- A call with the cursor that another call offered returns, and its rows follow the other's: together
  -- they are the rows from the first call's start on, with none missing and none twice, whatever number
  -- of rows each of them asks for.
  pub resumes :
      (params params' : Object) (f : Fetched)
      → cap_max ≤ max_pages
      → fetch_paginated lib saturates answer max_pages true params base_args ≡ ok f
      → is_empty f.next_cursor ≡ false
      → text_at "cursor" params' ≡ f.next_cursor
      → (f' : Fetched) × (fetch_paginated lib saturates answer max_pages true params' base_args
          ≡ ok f')
        × (f.all_items ++ f'.all_items
            ≡ take
                (resolve_max_results saturates params + resolve_max_results saturates params')
                (drop (start_of broker.position (first_args true params base_args)) rows))
  resumes params params' f enough e offered same =
      let p = start_of broker.position (first_args true params base_args) in
      let m = resolve_max_results saturates params in
      let m' = resolve_max_results saturates params' in
      let (rows_f, _, _, next) = Page-of params f enough e in
      let (f', e', page') =
        fetch_paginated-Page broker saturates max_pages true base_args params' enough in
      let there : start_of broker.position (first_args true params' base_args) ≡ p + m =
        start-first_args params' f.next_cursor same offered ∙ next offered in
      (
        f',
        e',
        ap (λ l. l ++ f'.all_items) rows_f
            ∙ ap (λ l. take m (drop p rows) ++ l) (page'.0 ∙ ap (λ q. take m' (drop q rows)) there)
            ∙ ap (λ l. take m (drop p rows) ++ take m' l) (sym (drop-drop m p rows))
            ∙ take_split m m' (drop p rows),
      )
