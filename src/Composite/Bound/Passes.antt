-- ===== src/Composite/Bound/Passes.antt =====
-- The passes of boundResponse of internal/composite/bound.go over the candidates.
use solace_broker_mcp.Common.{
  ℕ, zero, suc, ◌+◌, ◌-◌, String, Bool, true, false, List, [], ◌∷◌, ◌++◌, Option, none, some, ltb,
  leb, if◌then◌else◌, length,
}
use solace_broker_mcp.Common.Json.{Object, object, set}
use solace_broker_mcp.Composite.Bound.{
  Lib, Candidate, Shaved, shave, trimmed_step, BoundReport, untouched, candidates, step_ids,
  or_zero,
}

abbrev pub total : List Candidate → ℕ
total [] = 0
total (c ∷ cs) = c.keep + total cs

abbrev pub emptied : List Candidate → List Candidate
emptied [] = []
emptied (c ∷ cs) = record c { keep = 0 } ∷ emptied cs

-- What follows a cut, if there was one.
unfoldable pub after_shave :
    (ℕ → List Candidate → List Candidate) → ℕ → List Candidate → Option Shaved → List Candidate
after_shave next e cs none = cs
after_shave next e cs (some r) = next (e - r.freed) r.cands

-- Rows are cut until so many bytes are freed, or no row is left. Each turn cuts one row, so as many
-- turns as there are rows are enough.
unfoldable pub shave_excess : ℕ → ℕ → List Candidate → List Candidate
shave_excess zero e cs = cs
shave_excess (suc fuel) zero cs = cs
shave_excess (suc fuel) (suc e) cs = after_shave (shave_excess fuel) (suc e) cs (shave cs)

module _ (lib : Lib) (limit : ℕ) (has_summary : Bool) (resumable : String → Bool) where
  unfoldable pub put_step : Candidate → Object → Object
  put_step c out =
      if ltb c.keep (length c.items)
      then set c.id (object (trimmed_step lib c limit has_summary (resumable c.id))) out
      else out

  -- The result with each candidate cut to the rows that it keeps.
  unfoldable pub build : Object → List Candidate → Object
  build out [] = out
  build out (c ∷ cs) = build (put_step c out) cs

  -- The length of the text that is built, 0 if it cannot be.
  unfoldable pub measured : Object → List Candidate → ℕ
  measured out cs = or_zero (lib.text_size (build out cs))

  -- What follows a measurement: nothing where the text is not over the limit.
  unfoldable pub after_measure :
      (List Candidate → List Candidate) → List Candidate → ℕ → List Candidate
  after_measure next cs zero = cs
  after_measure next cs (suc excess) = next (shave_excess (total cs) (suc excess) cs)

  -- The exact pass: what is over the limit is cut, and the text measured again.
  unfoldable pub exact : Object → ℕ → List Candidate → List Candidate
  exact out zero cs = cs
  exact out (suc fuel) cs = after_measure (exact out fuel) cs (measured out cs - limit)

  unfoldable pub report : List Candidate → BoundReport → BoundReport
  report [] r = r
  report (c ∷ cs) r =
      if ltb c.keep (length c.items)
      then report cs (record {
        truncated = true;
        unbounded = r.unbounded;
        omitted_items = r.omitted_items + (length c.items - c.keep);
        trimmed_steps = r.trimmed_steps ++ (c.id ∷ []);
      })
      else report cs r

  -- Whether the result fits with no row left.
  unfoldable pub feasible : Object → List Candidate → Bool
  feasible out cs = elim (lib.text_size (build out (emptied cs))) [
    | none ↦ false
    | some n ↦ leb n limit
  ]

  unfoldable pub settle : Object → ℕ → List Candidate → List Candidate
  settle out size cs = exact out (suc (total cs)) (shave_excess (total cs) (size - limit) cs)

  abbrev pub unbounded : Object → Object × BoundReport
  unbounded out = (out, record untouched { unbounded = true })

  unfoldable pub bound_candidates : Object → ℕ → List Candidate → Object × BoundReport
  bound_candidates out size [] = unbounded out
  bound_candidates out size (c ∷ cs) =
      if feasible out (c ∷ cs)
      then (build out (settle out size (c ∷ cs)), report (settle out size (c ∷ cs)) untouched)
      else unbounded out

  -- `boundResponse`: the result and what is reported of it.
  unfoldable pub bound_response : Object → ℕ → Object × BoundReport
  bound_response out size =
      if leb size limit
      then (out, untouched)
      else bound_candidates out size (candidates lib out (lib.sort (step_ids has_summary out)))
