-- ===== src/Composite/Pages/Turns.antt =====
-- The loop of fetchPaginated of internal/composite/executor.go, turn by turn, with a broker that serves
-- a fixed list of rows.
use solace_broker_mcp.Common.{
  ℕ, zero, suc, ◌+◌, ◌-◌, ◌≤◌, ◌<◌, String, Bool, false, not, ◌&&◌, ◌||◌, List, ◌++◌, ◌≡◌, refl,
  sym, ap, ◌∙◌, subst, ltb, leb, if◌then◌else◌, length, take, drop, ◌==◌, arith, length-append,
  length-take, length-drop, inl, inr, Bool-cases, if_cases, take-take_le, take_all, append_nil,
}
use solace_broker_mcp.Common.Result.{Result, ok, ◌>>=◌}
use solace_broker_mcp.Common.Json.{Json, Object, set, text}
use solace_broker_mcp.Composite.Pages.{
  Lib, Fetched, Turn, done, more, FetchError, is_empty, page_args, on_last_page, on_next_page,
  on_rows, on_page, pages, request, on_answer, go_on, finished,
}
use solace_broker_mcp.Composite.Pages.Serving.{
  Serves, start_of, next_uri, cursor_from_here, next_uri_here, next_uri_end, empty_text, offered,
  page_length, truncated_here, drop_none, Collected, Collected_more, text_at-set_same,
  cursor-set_count,
}

module _ {lib : Lib} {rows : List Json} {answer : ℕ → Object → Result String Object}
    (broker : Serves lib rows answer) (resumable : Bool) (max page_size : ℕ)
    (base_args : Object) where
  start-page_args :
      (n : ℕ) (args : Object)
      → start_of broker.position (page_args lib resumable max page_size base_args n args)
        ≡ start_of broker.position args
  unfolding page_args
  start-page_args n args =
      if_cases (λ a. start_of broker.position a ≡ start_of broker.position args)
        (resumable && ltb n page_size) _ _
        (λ e.
          ap (λ c. if is_empty c then 0 else broker.position c)
            (cursor-set_count (lib.itoa n) args))
        (λ e. refl)

  start-set_cursor :
      (p : ℕ)
      → p < length rows
      → start_of broker.position (set "cursor" (text (broker.cursor_at p)) base_args) ≡ p
  start-set_cursor p l =
      ap (λ c. if is_empty c then 0 else broker.position c)
        (text_at-set_same "cursor" (broker.cursor_at p) base_args)
      ∙ ap (λ b. if b then 0 else broker.position (broker.cursor_at p)) (broker.cursor_set p l)
      ∙ broker.position_of_cursor p l

  -- The turn that collects a last page: `s` rows are at hand from `q` on.
  last_page :
      (all : List Json) (q rem s : ℕ)
      → 0 < rem
      → rem ≤ length (take s (drop q rows))
      → (f : Fetched) × (on_last_page lib resumable max page_size base_args all rem
            (take s (drop q rows))
            (next_uri broker (q + s))
          ≡ ok (done f))
        × Collected broker all q rem f
  unfolding on_last_page Collected
  last_page all q rem s pos h =
      let page = take s (drop q rows) in
      let at_most : length page ≤ s = omega (arith, length-take s (drop q rows)) in
      let (cursor, e, f, g) = offered broker (resumable && length page == rem) (q + s) in
      (
        record {
          all_items = all ++ take rem page;
          truncated = ltb rem (length page) || not (is_empty (next_uri broker (q + s)));
          page_limit_hit = false;
          next_cursor = cursor;
        },
        rw e refl,
        (
          ap (λ l. all ++ l) (take-take_le rem s (drop q rows) (omega arith)),
          truncated_here broker q rem s pos h,
          refl,
          λ c.
              let here = f c in
              let whole : length page ≡ rem = ground (arith, here.0) in
              omega (arith, here.1, here.2, whole, page_length broker q s),
        ),
      )

  -- What a turn from position `q` leaves: the next rows are collected, or some of them are and the next
  -- request starts after these.
  abbrev Turned : List Json → ℕ → ℕ → Turn → Type 0
  Turned all q rem (done f) = Collected broker all q rem f
  Turned all q rem (more all' args) =
      (s : ℕ) × (0 < s)
      × (s < rem)
      × (all' ≡ all ++ take s (drop q rows))
      × (length all' ≡ length all + s)
      × (start_of broker.position args ≡ q + s)

  next_page :
      (all : List Json) (q rem s : ℕ)
      → 0 < s
      → length (take s (drop q rows)) < rem
      → (t : Turn) × (on_next_page lib resumable max page_size base_args all
            (take s (drop q rows))
            (next_uri broker (q + s))
          ≡ ok t)
        × Turned all q rem t
  unfolding on_next_page Collected finished
  next_page all q rem s pos h =
      elim (Bool-cases (ltb (q + s) (length rows)))
        as (λ _.
          (t : Turn) × (on_next_page lib resumable max page_size base_args all
              (take s (drop q rows)) (next_uri broker (q + s))
            ≡ ok t)
          × Turned all q rem t) [
            | inl e ↦
                let l : q + s < length rows = ground arith in
                (
                  more (all ++ take s (drop q rows))
                      (set "cursor" (text (broker.cursor_at (q + s))) base_args),
                  rw
                      (
                        next_uri_here broker (q + s) l,
                        broker.uri_set (q + s) l,
                        cursor_from_here broker (q + s) l,
                      )
                      refl,
                  (
                    s,
                    pos,
                    omega (arith, h, page_length broker q s),
                    refl,
                    omega (arith, length-append all (take s (drop q rows)), page_length broker q s),
                    start-set_cursor (q + s) l,
                  ),
                )
            | inr e ↦
                let l : length rows ≤ q + s = ground arith in
                (
                  done (
                      finished lib resumable max page_size base_args (all ++ take s (drop q rows))),
                  rw (next_uri_end broker (q + s) l, empty_text broker) refl,
                  (
                    ap (λ l. all ++ l)
                        (take_all s (drop q rows) (omega (arith, length-drop q rows))
                          ∙ sym (
                              take_all rem (drop q rows)
                                (omega (arith, l, h, page_length broker q s, length-drop q rows)))),
                    ground (arith, l, h, page_length broker q s),
                    refl,
                    λ c. ground (arith, empty_text broker),
                  ),
                )
          ]

  abbrev Turns : List Json → ℕ → ℕ → Result FetchError Turn → Type 0
  Turns all q rem r = (t : Turn) × (r ≡ ok t) × Turned all q rem t

  no_rows :
      (all : List Json) (q rem s : ℕ)
      → 0 < s
      → length (take s (drop q rows)) ≡ 0
      → Collected broker all q rem (finished lib resumable max page_size base_args all)
  unfolding Collected finished
  no_rows all q rem s pos h =
      let past : length rows ≤ q = omega (arith, page_length broker q s, h, pos) in
      (
        ap (λ l. l) (sym (append_nil all)) ∙ ap (λ l. all ++ l) (sym (drop_none broker q rem past)),
        ground (arith, past),
        refl,
        λ c. ground (arith, empty_text broker),
      )

  rows_turn :
      (all : List Json) (q rem s : ℕ)
      → 0 < rem
      → 0 < s
      → Turns all q rem (
          on_rows lib resumable max page_size base_args all rem
            (take s (drop q rows))
            (next_uri broker (q + s)))
  unfolding on_rows
  rows_turn all q rem s pos spos =
      if_cases (Turns all q rem) (length (take s (drop q rows)) == 0) _ _
        (λ e. (
          done (finished lib resumable max page_size base_args all),
          refl,
          no_rows all q rem s spos (ground arith),
        ))
        (λ e.
          if_cases (Turns all q rem) (leb rem (length (take s (drop q rows)))) _ _
            (λ f. let (r, g, h) = last_page all q rem s pos (ground arith) in (done r, g, h))
            (λ f. next_page all q rem s spos (ground arith)))

  on_rows_at :
      (all : List Json) (q rem : ℕ) {rem' : ℕ} {page page' : List Json} {uri uri' : String}
      → rem' ≡ rem
      → page' ≡ page
      → uri' ≡ uri
      → Turns all q rem (on_rows lib resumable max page_size base_args all rem page uri)
      → Turns all q rem (on_rows lib resumable max page_size base_args all rem' page' uri')
  on_rows_at all q rem a b c h = rw (a, b, c) h

  turn :
      (n : ℕ) (all : List Json) (q rem : ℕ) (args : Object)
      → length all + rem ≡ max
      → 0 < rem
      → start_of broker.position args ≡ q
      → Turns all q rem (request lib resumable max page_size base_args answer n all args)
  unfolding request on_answer on_page next_uri
  turn n all q rem args m pos st =
      let sent = page_args lib resumable max page_size base_args (max - length all) args in
      let (response, e, rows_here, uri_here) = broker.page n sent in
      let at_q : start_of broker.position sent ≡ q = start-page_args (max - length all) args ∙ st in
      let still : max - length all ≡ rem = omega (arith, m) in
      subst (λ r. Turns all q rem (on_answer lib resumable max page_size base_args all r)) (sym e)
        (on_rows_at all q rem still
          (rows_here ∙ ap (λ p. take (broker.size sent) (drop p rows)) at_q)
          (uri_here ∙ ap (λ p. next_uri broker (p + broker.size sent)) at_q)
          (rows_turn all q rem (broker.size sent) pos (broker.size_pos sent)))

  -- What the rest of the loop collects, completed by the rows of this turn.
  finish :
      (next : List Json → Object → Result FetchError Fetched) (all : List Json) (q rem : ℕ)
      (t : Turn)
      → ((s : ℕ) (all' : List Json) (args : Object)
          → 0 < s
          → s < rem
          → length all' ≡ length all + s
          → start_of broker.position args ≡ q + s
          → (f : Fetched) × (next all' args ≡ ok f) × Collected broker all' (q + s) (rem - s) f)
      → Turned all q rem t
      → (f : Fetched) × (go_on lib resumable max page_size base_args next t ≡ ok f)
        × Collected broker all q rem f
  unfolding go_on
  finish next all q rem (done f) rest h = (f, refl, h)
  finish next all q rem (more all' args) rest (s, spos, l, e, len, st) =
      let (f, e', c) = rest s all' args spos l len st in
      (f, e', Collected_more broker all all' q rem s f l e c)

  -- With as many pages as items are wanted, the loop collects all of these.
  pub collect :
      (fuel n : ℕ) (all : List Json) (q rem : ℕ) (args : Object)
      → length all + rem ≡ max
      → 0 < rem
      → rem ≤ fuel
      → start_of broker.position args ≡ q
      → (f : Fetched) × (pages lib resumable max page_size base_args answer fuel n all args ≡ ok f)
        × Collected broker all q rem f
  unfolding pages
  collect zero n all q rem args m pos enough st = absurd (omega arith)
  collect (suc fuel) n all q rem args m pos enough st =
      let (t, e, h) = turn n all q rem args m pos st in
      let next = pages lib resumable max page_size base_args answer fuel (suc n) in
      let (f, e', c) =
        finish next all q rem t
          (λ s all' args' spos l len st'.
            collect fuel (suc n) all' (q + s) (rem - s) args' (omega arith) (omega arith)
              (omega arith) st')
          h in
      (f, ap (λ r. r >>= go_on lib resumable max page_size base_args next) e ∙ e', c)
