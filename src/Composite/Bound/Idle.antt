-- ===== src/Composite/Bound/Idle.antt =====
-- boundResponse of internal/composite/bound.go: when no step is a candidate for a cut.
use mathlib.Core.List.{Memᴰ}
use mathlib.Core.List.Memᴰ
use solace_broker_mcp.Common.{
  ℕ, String, List, [], ◌∷◌, ◌++◌, Option, none, some, ◌≡◌, refl, sym, subst, inl, inr, ◌⊎◌,
}
use solace_broker_mcp.Common.Json.{
  Json, Object, null, boolean, number, text, object, array, items, get,
}
use solace_broker_mcp.Composite.Bound.{
  Lib, Candidate, candidates, candidate_of, candidate_at, candidate_data, measured_candidate,
  row_sizes,
}
use solace_broker_mcp.Composite.Bound.Rows.{rows_at, rows_of_data, rows_of_step}

module _ (lib : Lib) where
  -- There are no rows, or one cannot be measured.
  abbrev pub Uncut : List Json → Type 0
  Uncut rows = (rows ≡ []) ⊎ (row_sizes lib rows ≡ none)

  -- No step of the list has rows that could be cut.
  abbrev pub NoRows : Object → List String → Type 0
  NoRows out ids = (id : String) → Memᴰ id ids → Uncut (rows_at id out)

  measured-Uncut :
      (id : String) (step : Object) (rows : List Json) (sizes : Option (List ℕ))
      → row_sizes lib rows ≡ sizes
      → measured_candidate id step rows sizes ≡ []
      → Uncut rows
  unfolding measured_candidate
  measured-Uncut id step rows none e h = inr e
  measured-Uncut id step rows (some ns) e h = absurd cc

  rows-Uncut :
      (id : String) (step : Object) (rows : List Json)
      → candidate_of lib id step rows ≡ []
      → Uncut rows
  unfolding candidate_of
  rows-Uncut id step [] h = inl refl
  rows-Uncut id step (row ∷ rows) h = measured-Uncut id step (row ∷ rows) _ refl h

  data-Uncut :
      (id : String) (step : Object) (o : Option Json)
      → candidate_data lib id step o ≡ []
      → Uncut (rows_of_data o)
  unfolding candidate_data
  data-Uncut id step none h = inl refl
  data-Uncut id step (some (array a)) h = rows-Uncut id step (items a) h
  data-Uncut id step (some null) h = inl refl
  data-Uncut id step (some (boolean b)) h = inl refl
  data-Uncut id step (some (number n)) h = inl refl
  data-Uncut id step (some (text t)) h = inl refl
  data-Uncut id step (some (object x)) h = inl refl

  step-Uncut : (id : String) (o : Option Json) → candidate_at lib id o ≡ [] → Uncut (rows_of_step o)
  unfolding candidate_at
  step-Uncut id none h = inl refl
  step-Uncut id (some (object step)) h = data-Uncut id step (get "data" step) h
  step-Uncut id (some null) h = inl refl
  step-Uncut id (some (boolean b)) h = inl refl
  step-Uncut id (some (number n)) h = inl refl
  step-Uncut id (some (text t)) h = inl refl
  step-Uncut id (some (array a)) h = inl refl

  both_empty : (a b : List Candidate) → a ++ b ≡ [] → (a ≡ []) × (b ≡ [])
  both_empty [] b h = (refl, h)
  both_empty (c ∷ a) b h = absurd cc

  pub candidates-NoRows :
      (out : Object) (ids : List String) → candidates lib out ids ≡ [] → NoRows out ids
  unfolding candidates
  candidates-NoRows out [] h id id_in = absurd (Memᴰ.not-nil id_in)
  candidates-NoRows out (i ∷ ids) h id id_in =
      let (first, others) =
        both_empty (candidate_at lib i (get i out)) (candidates lib out ids) h in
      elim (Memᴰ.cases_cons id_in) [
        | inl e ↦ subst (λ x. Uncut (rows_at x out)) (sym e) (step-Uncut i (get i out) first)
        | inr later ↦ candidates-NoRows out ids others id later
      ]
