-- ===== src/Composite/Bound/Rows.antt =====
-- boundResponse of internal/composite/bound.go: the rows that it leaves of each step.
use solace_broker_mcp.Common.{
  ℕ, zero, suc, ◌-◌, String, key_eq, Bool, List, [], ◌∷◌, ◌++◌, Option, none, some, ltb, leb,
  length, take, ◌≡◌, ◌≢◌, refl, sym, ap, ◌∙◌, arith, if_cases, ◌&&◌, take_all,
}
use solace_broker_mcp.Common.Json.{
  Json, Object, null, boolean, number, text, object, array, items, get, set, get-set,
  items-array_of,
}
use solace_broker_mcp.Composite.Bound.{
  Lib, Candidate, Shaved, shave, shave_first, shave_of, trimmed_step, BoundReport, candidates,
  candidate_of, candidate_at, candidate_data, measured_candidate,
}
use solace_broker_mcp.Composite.Bound.Passes.{
  total, after_shave, shave_excess, after_measure, put_step, build, exact, feasible, settle,
  bound_candidates, bound_response,
}

abbrev pub rows_of_data : Option Json → List Json
rows_of_data (some (array a)) = items a
rows_of_data _ = []

abbrev pub rows_of_step : Option Json → List Json
rows_of_step (some (object step)) = rows_of_data (get "data" step)
rows_of_step _ = []

-- The rows under a step's `data`.
abbrev pub rows_at : String → Object → List Json
rows_at id out = rows_of_step (get id out)

-- Every step has the first rows of those that it had.
abbrev pub Prefixes : Object → Object → Type 0
Prefixes out result = (id : String) → (n : ℕ) × (rows_at id result ≡ take n (rows_at id out))

here : (k : String) (v : Json) (o : Object) (j : String) → j ≡ k → get k (set j v o) ≡ some v
here k v o j same = ground (arith, get-set j k v o)

elsewhere : (k : String) (v : Json) (o : Object) (j : String) → j ≢ k → get k (set j v o) ≡ get k o
elsewhere k v o j other = ground (arith, get-set j k v o)

module _ (lib : Lib) (limit : ℕ) (has_summary : Bool) (resumable : String → Bool)
    (out : Object) where
  -- Each candidate holds the rows of its step.
  abbrev Held : List Candidate → Type 0
  Held [] = Unit
  Held (c ∷ cs) = (c.items ≡ rows_at c.id out) × Held cs

  trimmed_rows :
      (c : Candidate) (b : Bool)
      → rows_of_data (get "data" (trimmed_step lib c limit has_summary b)) ≡ take c.keep c.items
  unfolding trimmed_step key_eq
  trimmed_rows c b =
      ap rows_of_data (
        get-set "truncatedMessage" "data" _ _
        ∙ get-set "omittedItems" "data" _ _
        ∙ get-set "truncated" "data" _ _
        ∙ get-set "data" "data" _ _)
      ∙ items-array_of (take c.keep c.items)

  put_step-Prefixes :
      (c : Candidate) (o : Object)
      → c.items ≡ rows_at c.id out
      → Prefixes out o
      → Prefixes out (put_step lib limit has_summary resumable c o)
  unfolding put_step
  put_step-Prefixes c o held pre id =
      if_cases (λ r. (n : ℕ) × (rows_at id r ≡ take n (rows_at id out)))
        (ltb c.keep (length c.items)) _ _
        (λ e. elim (key_eq c.id id) [
          | yes same ↦ (
            c.keep,
            ap rows_of_step (
                  here id (object (trimmed_step lib c limit has_summary (resumable c.id))) o c.id
                    same)
                ∙ trimmed_rows c (resumable c.id)
                ∙ ap (take c.keep) (held ∙ ap (λ k. rows_at k out) same),
          )
          | no other ↦ (
            (pre id).0,
            ap rows_of_step (
                  elsewhere id (object (trimmed_step lib c limit has_summary (resumable c.id))) o
                    c.id other)
                ∙ (pre id).1,
          )
        ])
        (λ e. pre id)

  build-Prefixes :
      (o : Object) (cs : List Candidate)
      → Held cs
      → Prefixes out o
      → Prefixes out (build lib limit has_summary resumable o cs)
  unfolding build
  build-Prefixes o [] h pre = pre
  build-Prefixes o (c ∷ cs) h pre =
      build-Prefixes (put_step lib limit has_summary resumable c o) cs h.1
        (put_step-Prefixes c o h.0 pre)

  Prefixes-refl : Prefixes out out
  Prefixes-refl id = (length (rows_at id out), sym (take_all _ (rows_at id out) (omega arith)))

  shave_first-Held :
      (c : Candidate) (cs : List Candidate) → Held (c ∷ cs) → Held (shave_first c cs).cands
  unfolding shave_first
  shave_first-Held c cs h = h

  HeldShaved : Option Shaved → Type 0
  HeldShaved none = Unit
  HeldShaved (some r) = Held r.cands

  shave_of-Held :
      (c : Candidate) (cs : List Candidate) (o : Option Shaved)
      → Held (c ∷ cs)
      → HeldShaved o
      → HeldShaved (shave_of c cs o)
  unfolding shave_of HeldShaved
  shave_of-Held c cs none h k =
      if_cases HeldShaved (ltb 0 c.keep) _ _ (λ e. shave_first-Held c cs h) (λ e. tt)
  shave_of-Held c cs (some r) h k =
      if_cases HeldShaved (ltb 0 c.keep && leb r.largest c.bytes) _ _ (λ e. shave_first-Held c cs h)
        (λ e. (h.0, k))

  shave-Held : (cs : List Candidate) → Held cs → HeldShaved (shave cs)
  unfolding shave HeldShaved
  shave-Held [] h = tt
  shave-Held (c ∷ cs) h = shave_of-Held c cs (shave cs) h (shave-Held cs h.1)

  after_shave-Held :
      (next : ℕ → List Candidate → List Candidate) (e : ℕ) (cs : List Candidate) (o : Option Shaved)
      → ((e' : ℕ) (ds : List Candidate) → Held ds → Held (next e' ds))
      → Held cs
      → HeldShaved o
      → Held (after_shave next e cs o)
  unfolding after_shave HeldShaved
  after_shave-Held next e cs none ih h k = h
  after_shave-Held next e cs (some r) ih h k = ih (e - r.freed) r.cands k

  shave_excess-Held : (fuel e : ℕ) (cs : List Candidate) → Held cs → Held (shave_excess fuel e cs)
  unfolding shave_excess
  shave_excess-Held zero e cs h = h
  shave_excess-Held (suc fuel) zero cs h = h
  shave_excess-Held (suc fuel) (suc e) cs h =
      after_shave-Held (shave_excess fuel) (suc e) cs (shave cs) (shave_excess-Held fuel) h
        (shave-Held cs h)

  after_measure-Held :
      (next : List Candidate → List Candidate) (cs : List Candidate) (d : ℕ)
      → ((ds : List Candidate) → Held ds → Held (next ds))
      → Held cs
      → Held (after_measure lib limit has_summary resumable next cs d)
  unfolding after_measure
  after_measure-Held next cs zero ih h = h
  after_measure-Held next cs (suc excess) ih h =
      ih _ (shave_excess-Held (total cs) (suc excess) cs h)

  exact-Held :
      (fuel : ℕ) (cs : List Candidate)
      → Held cs
      → Held (exact lib limit has_summary resumable out fuel cs)
  unfolding exact
  exact-Held zero cs h = h
  exact-Held (suc fuel) cs h =
      after_measure-Held (exact lib limit has_summary resumable out fuel) cs _ (exact-Held fuel) h

  settle-Held :
      (size : ℕ) (cs : List Candidate)
      → Held cs
      → Held (settle lib limit has_summary resumable out size cs)
  unfolding settle
  settle-Held size cs h =
      exact-Held (suc (total cs)) _ (shave_excess-Held (total cs) (size - limit) cs h)

  Held-append : (cs ds : List Candidate) → Held cs → Held ds → Held (cs ++ ds)
  Held-append [] ds h k = k
  Held-append (c ∷ cs) ds h k = (h.0, Held-append cs ds h.1 k)

  measured_candidate-Held :
      (id : String) (step : Object) (rows : List Json) (sizes : Option (List ℕ))
      → rows ≡ rows_at id out
      → Held (measured_candidate id step rows sizes)
  unfolding measured_candidate
  measured_candidate-Held id step rows none e = tt
  measured_candidate-Held id step rows (some sizes) e = (e, tt)

  candidate_of-Held :
      (id : String) (step : Object) (rows : List Json)
      → rows ≡ rows_at id out
      → Held (candidate_of lib id step rows)
  unfolding candidate_of
  candidate_of-Held id step [] e = tt
  candidate_of-Held id step (row ∷ rows) e = measured_candidate-Held id step (row ∷ rows) _ e

  candidate_data-Held :
      (id : String) (step : Object) (v : Option Json)
      → rows_of_data v ≡ rows_at id out
      → Held (candidate_data lib id step v)
  unfolding candidate_data
  candidate_data-Held id step (some (array a)) e = candidate_of-Held id step (items a) e
  candidate_data-Held id step (some null) e = tt
  candidate_data-Held id step (some (boolean b)) e = tt
  candidate_data-Held id step (some (number n)) e = tt
  candidate_data-Held id step (some (text t)) e = tt
  candidate_data-Held id step (some (object o)) e = tt
  candidate_data-Held id step none e = tt

  candidate_at-Held :
      (id : String) (v : Option Json)
      → rows_of_step v ≡ rows_at id out
      → Held (candidate_at lib id v)
  unfolding candidate_at
  candidate_at-Held id (some (object o)) e = candidate_data-Held id o (get "data" o) e
  candidate_at-Held id (some null) e = tt
  candidate_at-Held id (some (boolean b)) e = tt
  candidate_at-Held id (some (number n)) e = tt
  candidate_at-Held id (some (text t)) e = tt
  candidate_at-Held id (some (array a)) e = tt
  candidate_at-Held id none e = tt

  candidates-Held : (ids : List String) → Held (candidates lib out ids)
  unfolding candidates
  candidates-Held [] = tt
  candidates-Held (id ∷ ids) =
      Held-append _ (candidates lib out ids) (candidate_at-Held id (get id out) refl)
        (candidates-Held ids)

  bound_candidates-Prefixes :
      (size : ℕ) (cs : List Candidate)
      → Held cs
      → Prefixes out (bound_candidates lib limit has_summary resumable out size cs).0
  unfolding bound_candidates
  bound_candidates-Prefixes size [] h = Prefixes-refl
  bound_candidates-Prefixes size (c ∷ cs) h =
      if_cases (λ (r : Object × BoundReport). Prefixes out r.0)
        (feasible lib limit has_summary resumable out (c ∷ cs)) _ _
        (λ e. build-Prefixes out _ (settle-Held size (c ∷ cs) h) Prefixes-refl) (λ e. Prefixes-refl)

  -- In the result that `boundResponse` returns the `data` of each step are the first of the rows that
  -- the step had: rows are only cut off at the end.
  pub bound_response-Prefixes :
      (size : ℕ) → Prefixes out (bound_response lib limit has_summary resumable out size).0
  unfolding bound_response
  bound_response-Prefixes size =
      if_cases (λ (r : Object × BoundReport). Prefixes out r.0) (leb size limit) _ _
        (λ e. Prefixes-refl) (λ e. bound_candidates-Prefixes size _ (candidates-Held _))
