-- ===== src/Composite/FanOut/Jobs.antt =====
-- The rows that fetchFanOut of internal/composite/executor.go makes calls for.
use mathlib.Core.List.{Memᴰ}
use mathlib.Core.List.Memᴰ
use solace_broker_mcp.Common.{
  ℕ, ltb, ◌&&◌, ◌++◌, suc, length, ◌+◌, String, Bool, true, false, List, [], ◌∷◌, Option, none,
  some, ◌≡◌, refl, sym, ap, ◌∙◌, ◌⊎◌, inl, inr, arith, subst, if_cases,
}
use solace_broker_mcp.Common.Result.{Result, ok, bind-ok, ok_of}
use solace_broker_mcp.Common.Json.{Json, null, boolean, number, text, array, object, Object, get}
use solace_broker_mcp.Composite.FanOut.{
  FanOutError, dispatch_on, for_each_if_failed, Job, Dispatched, key_text, seen, add_job, of_row,
  add_row, dispatch_row, dispatch_rows,
}
use solace_broker_mcp.Composite.FanOut.Calls.{Unique, of_row-ok}

key_text-ok : (o : Option Json) (k : String) → key_text o ≡ ok k → o ≡ some (text k)
unfolding key_text
key_text-ok none k h = absurd cc
key_text-ok (some (text t)) k h = ap (λ x. some (text x)) (ok_of h)
key_text-ok (some null) k h = absurd cc
key_text-ok (some (boolean b)) k h = absurd cc
key_text-ok (some (number n)) k h = absurd cc
key_text-ok (some (array a)) k h = absurd cc
key_text-ok (some (object o)) k h = absurd cc

add_job-ok :
    (d d' : Dispatched) (row : Object) (k : String)
    → add_job d row k ≡ ok d'
    → (seen k d.jobs ≡ false) × (record d { jobs = record { key = k; row = row } ∷ d.jobs } ≡ d')
unfolding add_job
add_job-ok d d' row k h =
    if_cases
      (λ r.
        r ≡ ok d'
        → (seen k d.jobs ≡ false)
          × (record d { jobs = record { key = k; row = row } ∷ d.jobs } ≡ d'))
      (seen k d.jobs) _ _ (λ t g. absurd cc) (λ f g. (f, ok_of g)) h

seen-Mem : (k : String) (j : Job) (js : List Job) → Memᴰ j js → j.key ≡ k → seen k js ≡ true
unfolding seen
seen-Mem k j [] j_in e = absurd (Memᴰ.not-nil j_in)
seen-Mem k j (i ∷ js) j_in e = elim (Memᴰ.cases_cons j_in) [
  | inl p ↦ let q : i.key ≡ k = sym (ap (λ x. x.key) p) ∙ e in ground arith
  | inr later ↦ ground (arith, seen-Mem k j js later e)
]

Unique-cons : (i : Job) (js : List Job) → seen i.key js ≡ false → Unique js → Unique (i ∷ js)
Unique-cons i js f u x y x_in y_in e = elim (Memᴰ.cases_cons x_in) [
  | inl p ↦ elim (Memᴰ.cases_cons y_in) [
    | inl q ↦ p ∙ sym q
    | inr y_js ↦ let t = seen-Mem i.key y js y_js (sym e ∙ ap (λ z. z.key) p) in absurd cc
  ]
  | inr x_js ↦ elim (Memᴰ.cases_cons y_in) [
    | inl q ↦ let t = seen-Mem i.key x js x_js (e ∙ ap (λ z. z.key) q) in absurd cc
    | inr y_js ↦ u x y x_js y_js e
  ]
]

text_of : {a b : String} → ◌≡◌ {A = Option Json} (some (text a)) (some (text b)) → a ≡ b
text_of h = cc

module _ (for_each_if : Object → Result String Bool) (for_each_key : String) where
  -- A row that passes the predicate, with its key.
  abbrev pub Takes : Job → Json → Type 0
  Takes j r =
      (r ≡ object j.row)
      × (for_each_if j.row ≡ ok true)
      × (get for_each_key j.row ≡ some (text j.key))

  -- What a row adds: nothing where the predicate fails, else a job with a key that is new.
  abbrev pub Adds : Dispatched → Json → Dispatched → Type 0
  Adds d r d' =
      ((d'.jobs ≡ d.jobs) × (d'.skipped ≡ d.skipped + 1) × ((j : Job) → Takes j r → ⊥))
      ⊎ ((j : Job) × (d'.jobs ≡ j ∷ d.jobs)
          × (d'.skipped ≡ d.skipped)
          × Takes j r
          × (seen j.key d.jobs ≡ false))

  row_of : {a b : Object} → object a ≡ object b → a ≡ b
  row_of h = cc

  add_row-Adds :
      (d d' : Dispatched) (row : Object) (b : Bool)
      → for_each_if row ≡ ok b
      → add_row for_each_if for_each_key d row b ≡ ok d'
      → Adds d (object row) d'
  unfolding add_row add_job
  add_row-Adds d d' row false e h = inl (
    sym (ap (λ x. x.jobs) (ok_of h)),
    sym (ap (λ x. x.skipped) (ok_of h)),
    (λ j t.
        absurd (let q : ok false ≡ ok true = sym (e) ∙ ap for_each_if (row_of t.0) ∙ t.1 in cc)),
  )
  add_row-Adds d d' row true e h =
      let (k, ek, h') = bind-ok (key_text (get for_each_key row)) (add_job d row) d' h in
      let (fresh, e') = add_job-ok d d' row k h' in
      inr (
        record { key = k; row = row },
        sym (ap (λ x. x.jobs) e'),
        sym (ap (λ x. x.skipped) e'),
        (refl, e, key_text-ok _ k ek),
        fresh,
      )

  dispatch_row-Adds :
      (d d' : Dispatched) (r : Json)
      → dispatch_row for_each_if for_each_key d r ≡ ok d'
      → Adds d r d'
  unfolding dispatch_row
  dispatch_row-Adds d d' (object row) h =
      let (b, e, h') =
        bind-ok (of_row for_each_if_failed (for_each_if row))
          (add_row for_each_if for_each_key d row) d' h in
      add_row-Adds d d' row b (of_row-ok for_each_if_failed (for_each_if row) b e) h'
  dispatch_row-Adds d d' null h = absurd cc
  dispatch_row-Adds d d' (boolean b) h = absurd cc
  dispatch_row-Adds d d' (number n) h = absurd cc
  dispatch_row-Adds d d' (text t) h = absurd cc
  dispatch_row-Adds d d' (array a) h = absurd cc

  Takes-same : (i j : Job) (r : Json) → Takes i r → Takes j r → i ≡ j
  Takes-same i j r (e, _, k) (e', _, k') =
      let row = row_of (sym e ∙ e') in
      let key = text_of (sym k ∙ ap (get for_each_key) row ∙ k') in
      ap (λ x. record { key = x; row = i.row }) key ∙ ap (λ x. record { key = j.key; row = x }) row

  -- The jobs after a row are those before it and the row's, and have one job for a key.
  abbrev pub Extends : (Job → Type 0) → Dispatched → Dispatched → Type 0
  Extends P d d' =
      ((j : Job) → Memᴰ j d'.jobs → Memᴰ j d.jobs ⊎ P j)
      × ((j : Job) → Memᴰ j d.jobs ⊎ P j → Memᴰ j d'.jobs)
      × (Unique d.jobs → Unique d'.jobs)

  Adds-Extends : (d d' : Dispatched) (r : Json) → Adds d r d' → Extends (λ j. Takes j r) d d'
  Adds-Extends d d' r (inl (e, _, nothing)) = (
    (λ j m. inl (subst (Memᴰ j) e m)),
    (λ j m. elim m [ inl a ↦ subst (Memᴰ j) (sym e) a | inr t ↦ absurd (nothing j t) ]),
    subst Unique (sym e),
  )
  Adds-Extends d d' r (inr (i, e, _, t, f)) = (
    (λ j m. elim (Memᴰ.cases_cons (subst (Memᴰ j) e m)) [
      | inl p ↦ inr (subst (λ x. Takes x r) (sym p) t)
      | inr a ↦ inl a
    ]),
    (λ j m.
        subst (Memᴰ j) (sym e)
          (elim m [ inl a ↦ Memᴰ.tail a | inr t' ↦ Memᴰ.head (Takes-same j i r t' t) ])),
    (λ u. subst Unique (sym e) (Unique-cons i d.jobs f u)),
  )

  -- The job is that of one of the rows.
  abbrev pub Picked : List Json → Job → Type 0
  Picked rows j = (r : Json) × Memᴰ r rows × Takes j r

  Extends-none : (d : Dispatched) → Extends (Picked []) d d
  Extends-none d = (
    (λ j m. inl m),
    (λ j m. elim m [ inl a ↦ a | inr (r, r_in, _) ↦ absurd (Memᴰ.not-nil r_in) ]),
    (λ u. u),
  )

  Extends-cons :
      (r : Json) (rows : List Json) (d d1 d' : Dispatched)
      → Extends (λ j. Takes j r) d d1
      → Extends (Picked rows) d1 d'
      → Extends (Picked (r ∷ rows)) d d'
  Extends-cons r rows d d1 d' (out, into, unique) (out', into', unique') = (
    (λ j m. elim (out' j m) [
      | inl a ↦ elim (out j a) [ inl b ↦ inl b | inr t ↦ inr (r, Memᴰ.head refl, t) ]
      | inr (x, x_in, t) ↦ inr (x, Memᴰ.tail x_in, t)
    ]),
    (λ j m. elim m [
      | inl a ↦ into' j (inl (into j (inl a)))
      | inr (x, x_in, t) ↦ elim (Memᴰ.cases_cons x_in) [
        | inl p ↦ into' j (inl (into j (inr (subst (Takes j) p t))))
        | inr later ↦ into' j (inr (x, later, t))
      ]
    ]),
    (λ u. unique' (unique u)),
  )

  Adds-count :
      (d d' : Dispatched) (r : Json)
      → Adds d r d'
      → length d'.jobs + d'.skipped ≡ suc (length d.jobs + d.skipped)
  Adds-count d d' r (inl (e, n, _)) = let l = ap length e in omega arith
  Adds-count d d' r (inr (j, e, n, _, _)) =
      let l : length d'.jobs ≡ suc (length d.jobs) = ap length e in omega arith

  module _ (gone : ℕ → Bool) where
    -- What the loop makes of the rows: it takes the first of them, all unless the context has ended when
    -- the next job would start.
    abbrev pub Dispatches : List Json → Dispatched → Dispatched → Type 0
    Dispatches rows d d' =
        (taken : List Json) × (rest : List Json) × (rows ≡ taken ++ rest)
        × Extends (Picked taken) d d'
        × (length d'.jobs + d'.skipped ≡ length taken + (length d.jobs + d.skipped))
        × ((rest ≡ []) ⊎ (gone (length d'.jobs) ≡ true))

    dispatch_on-Dispatches :
        (next : Dispatched → Result FanOutError Dispatched) (r : Json) (rows : List Json)
        (d d1 d' : Dispatched)
        → Adds d r d1
        → (next d1 ≡ ok d' → Dispatches rows d1 d')
        → dispatch_on gone d next d1 ≡ ok d'
        → Dispatches (r ∷ rows) d d'
    unfolding dispatch_on
    dispatch_on-Dispatches next r rows d d1 d' adds more h =
        if_cases (λ x. x ≡ ok d' → Dispatches (r ∷ rows) d d')
          (ltb (length d.jobs) (length d1.jobs) && gone (length d.jobs)) _ _
          (λ t g.
            subst (Dispatches (r ∷ rows) d) (ok_of g)
              ([], r ∷ rows, refl, Extends-none d, omega arith, inr (ground arith)))
          (λ f g.
            let (taken, rest, e, ext, n, why) = more g in
            (
              r ∷ taken,
              rest,
              ap (λ x. r ∷ x) e,
              Extends-cons r taken d d1 d' (Adds-Extends d d1 r adds) ext,
              omega (arith, n, Adds-count d d1 r adds),
              why,
            ))
          h

    pub dispatch_rows-Dispatches :
        (rows : List Json) (d d' : Dispatched)
        → dispatch_rows for_each_if for_each_key gone d rows ≡ ok d'
        → Dispatches rows d d'
    unfolding dispatch_rows
    dispatch_rows-Dispatches [] d d' h =
        subst (Dispatches [] d) (ok_of h) ([], [], refl, Extends-none d, omega arith, inl refl)
    dispatch_rows-Dispatches (r ∷ rows) d d' h =
        let next : Dispatched → Result FanOutError Dispatched =
          λ x. dispatch_rows for_each_if for_each_key gone x rows in
        let (d1, h1, h2) =
          bind-ok (dispatch_row for_each_if for_each_key d r) (dispatch_on gone d next) d' h in
        dispatch_on-Dispatches next r rows d d1 d' (dispatch_row-Adds d d1 r h1)
          (dispatch_rows-Dispatches rows d1 d') h2
