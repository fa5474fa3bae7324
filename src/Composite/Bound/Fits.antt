-- ===== src/Composite/Bound/Fits.antt =====
-- boundResponse of internal/composite/bound.go: what it returns fits, or is what it was given.
use solace_broker_mcp.Common.{
  false, ℕ, zero, suc, ◌-◌, ◌≤◌, ◌<◌, String, Bool, true, List, [], ◌∷◌, Option, none, some, ltb,
  leb, ◌≡◌, refl, sym, ap, ◌∙◌, subst, arith, inl, inr, ◌⊎◌, Bool-cases, if_cases, ◌&&◌,
}
use solace_broker_mcp.Common.Json.{Object}
use solace_broker_mcp.Composite.Bound.{
  Lib, Candidate, Shaved, shave, shave_first, shave_of, trimmed_step, BoundReport, or_zero,
  candidates, step_ids,
}
use solace_broker_mcp.Composite.Bound.Passes.{
  total, emptied, after_shave, shave_excess, after_measure, put_step, build, measured, exact,
  feasible, settle, bound_candidates, bound_response,
}
use solace_broker_mcp.Composite.Bound.Idle.{NoRows, candidates-NoRows}

module _ (lib : Lib) (limit : ℕ) (has_summary : Bool) (resumable : String → Bool) where
  -- Candidates with as many rows at most, and the same result when all their rows are cut.
  record Cut (cs ds : List Candidate) : Type 0 where
    fewer : total ds ≤ total cs
    alike :
        (out : Object)
        → build lib limit has_summary resumable out (emptied ds)
          ≡ build lib limit has_summary resumable out (emptied cs)

  Cut-refl : (cs : List Candidate) → Cut cs cs
  Cut-refl cs = record { fewer = omega arith; alike = λ out. refl }

  Cut-trans : (cs ds es : List Candidate) → Cut cs ds → Cut ds es → Cut cs es
  Cut-trans cs ds es p q = record {
    fewer = omega (arith, p.fewer, q.fewer);
    alike = λ out. q.alike out ∙ p.alike out;
  }

  Sound : List Candidate → Option Shaved → Type 0
  Sound cs none = total cs ≡ 0
  Sound cs (some r) = (suc (total r.cands) ≡ total cs) × Cut cs r.cands

  shave_first-Sound :
      (c : Candidate) (cs : List Candidate) → 0 < c.keep → Sound (c ∷ cs) (some (shave_first c cs))
  unfolding Sound shave_first build put_step trimmed_step
  shave_first-Sound c cs pos = (omega arith, record { fewer = omega arith; alike = λ out. refl })

  shave_of-Sound :
      (c : Candidate) (cs : List Candidate) (o : Option Shaved)
      → Sound cs o
      → Sound (c ∷ cs) (shave_of c cs o)
  unfolding Sound shave_of build
  shave_of-Sound c cs none h =
      if_cases (Sound (c ∷ cs)) (ltb 0 c.keep) _ _ (λ e. shave_first-Sound c cs (ground arith))
        (λ e. ground arith)
  shave_of-Sound c cs (some r) h =
      if_cases (Sound (c ∷ cs)) (ltb 0 c.keep && leb r.largest c.bytes) _ _
        (λ e. shave_first-Sound c cs (ground arith))
        (λ e.
          (omega (arith, h.0), record { fewer = omega (arith, h.0); alike = λ out. h.1.alike _ }))

  shave-Sound : (cs : List Candidate) → Sound cs (shave cs)
  unfolding shave Sound
  shave-Sound [] = refl
  shave-Sound (c ∷ cs) = shave_of-Sound c cs (shave cs) (shave-Sound cs)

  after_shave-Cut :
      (next : ℕ → List Candidate → List Candidate) (e : ℕ) (cs : List Candidate) (o : Option Shaved)
      → ((e' : ℕ) (ds : List Candidate) → Cut ds (next e' ds))
      → Sound cs o
      → Cut cs (after_shave next e cs o)
  unfolding after_shave Sound
  after_shave-Cut next e cs none ih h = Cut-refl cs
  after_shave-Cut next e cs (some r) ih h = Cut-trans cs r.cands _ h.1 (ih (e - r.freed) r.cands)

  shave_excess-Cut : (fuel e : ℕ) (cs : List Candidate) → Cut cs (shave_excess fuel e cs)
  unfolding shave_excess
  shave_excess-Cut zero e cs = Cut-refl cs
  shave_excess-Cut (suc fuel) zero cs = Cut-refl cs
  shave_excess-Cut (suc fuel) (suc e) cs =
      after_shave-Cut (shave_excess fuel) (suc e) cs (shave cs) (shave_excess-Cut fuel)
        (shave-Sound cs)

  after_shave_less :
      (next : ℕ → List Candidate → List Candidate) (e : ℕ) (cs : List Candidate) (o : Option Shaved)
      → ((e' : ℕ) (ds : List Candidate) → Cut ds (next e' ds))
      → Sound cs o
      → 0 < total cs
      → total (after_shave next e cs o) < total cs
  unfolding after_shave Sound
  after_shave_less next e cs none ih h pos = omega (arith, h)
  after_shave_less next e cs (some r) ih h pos =
      omega (arith, h.0, (ih (e - r.freed) r.cands).fewer)

  -- A pass that has rows to cut and bytes to free cuts a row.
  shave_excess_less :
      (fuel e : ℕ) (cs : List Candidate)
      → 0 < fuel
      → 0 < total cs
      → total (shave_excess fuel (suc e) cs) < total cs
  unfolding shave_excess
  shave_excess_less zero e cs some_fuel pos = absurd (omega arith)
  shave_excess_less (suc fuel) e cs some_fuel pos =
      after_shave_less (shave_excess fuel) (suc e) cs (shave cs) (shave_excess-Cut fuel)
        (shave-Sound cs) pos

  all_cut : (cs : List Candidate) → total cs ≡ 0 → emptied cs ≡ cs
  all_cut [] h = refl
  all_cut (c ∷ cs) h =
      let none_kept : c.keep ≡ 0 = omega arith in
      ap (λ k. record c { keep = k } ∷ emptied cs) (sym none_kept)
      ∙ ap (λ ds. c ∷ ds) (all_cut cs (omega arith))

  -- With no row left the text is not over the limit.
  Feasible : Object → List Candidate → Type 0
  Feasible out cs = measured lib limit has_summary resumable out (emptied cs) ≤ limit

  Feasible-Cut :
      (out : Object) (cs ds : List Candidate) → Cut cs ds → Feasible out cs → Feasible out ds
  unfolding Feasible measured
  Feasible-Cut out cs ds cut h =
      subst (λ o. or_zero (lib.text_size o) ≤ limit) (sym (cut.alike out)) h

  after_measure-fits :
      (out : Object) (next : List Candidate → List Candidate) (cs : List Candidate) (d : ℕ)
      → measured lib limit has_summary resumable out cs - limit ≡ d
      → Feasible out cs
      → ((ds : List Candidate)
          → total ds < total cs
          → Feasible out ds
          → measured lib limit has_summary resumable out (next ds) ≤ limit)
      → measured lib limit has_summary resumable out
          (after_measure lib limit has_summary resumable next cs d)
        ≤ limit
  unfolding after_measure Feasible
  after_measure-fits out next cs zero e fits ih = omega (arith, e)
  after_measure-fits out next cs (suc excess) e fits ih = elim (Bool-cases (ltb 0 (total cs))) [
    | inl pos ↦
        let some_row : 0 < total cs = ground arith in
        ih (shave_excess (total cs) (suc excess) cs)
          (shave_excess_less (total cs) excess cs some_row some_row)
          (Feasible-Cut out cs _ (shave_excess-Cut (total cs) (suc excess) cs) fits)
    | inr none_left ↦
        let as_is =
          subst (λ ds. measured lib limit has_summary resumable out ds ≤ limit)
            (all_cut cs (ground arith)) fits in
        absurd (omega (arith, as_is, e))
  ]

  -- The exact pass ends with a text that is not over the limit, if the text with no rows is not.
  exact-fits :
      (out : Object) (fuel : ℕ) (cs : List Candidate)
      → total cs < fuel
      → Feasible out cs
      → measured lib limit has_summary resumable out
          (exact lib limit has_summary resumable out fuel cs)
        ≤ limit
  unfolding exact
  exact-fits out zero cs enough fits = absurd (omega arith)
  exact-fits out (suc fuel) cs enough fits =
      after_measure-fits out (exact lib limit has_summary resumable out fuel) cs _ refl fits
        (λ ds fewer f. exact-fits out fuel ds (omega arith) f)

  feasible-Feasible :
      (out : Object) (cs : List Candidate)
      → feasible lib limit has_summary resumable out cs ≡ true
      → Feasible out cs
  unfolding feasible Feasible measured
  feasible-Feasible out cs h = ground arith

  settle-fits :
      (out : Object) (size : ℕ) (cs : List Candidate)
      → feasible lib limit has_summary resumable out cs ≡ true
      → measured lib limit has_summary resumable out
          (settle lib limit has_summary resumable out size cs)
        ≤ limit
  unfolding settle
  settle-fits out size cs h =
      let cut = shave_excess-Cut (total cs) (size - limit) cs in
      exact-fits out (suc (total cs)) _ (omega (arith, cut.fewer))
        (Feasible-Cut out cs _ cut (feasible-Feasible out cs h))

  infeasible :
      (out : Object) (cs : List Candidate) (n : ℕ)
      → feasible lib limit has_summary resumable out cs ≡ false
      → lib.text_size (build lib limit has_summary resumable out (emptied cs)) ≡ some n
      → limit < n
  unfolding feasible
  infeasible out cs n h e = ground arith

  -- The text with all rows cut would be over the limit, if it could be built.
  abbrev pub Hopeless : Object → List Candidate → Type 0
  Hopeless out cs =
      (n : ℕ)
      → lib.text_size (build lib limit has_summary resumable out (emptied cs)) ≡ some n
      → limit < n

  -- The result is the one that was given, when it fits or cutting every row would not make it fit, which
  -- the report then says; or it fits.
  abbrev pub Bounded : Object → ℕ → Object × BoundReport → Type 0
  Bounded out size r =
      ((r.0 ≡ out) × (size ≤ limit) × (r.1.unbounded ≡ false))
      ⊎ ((r.0 ≡ out)
          × (limit < size)
          × (r.1.unbounded ≡ true)
          × (NoRows lib out (lib.sort (step_ids has_summary out))
              ⊎ Hopeless out (candidates lib out (lib.sort (step_ids has_summary out)))))
      ⊎ (or_zero (lib.text_size r.0) ≤ limit)

  bound_candidates-Bounded :
      (out : Object) (size : ℕ) (cs : List Candidate)
      → limit < size
      → candidates lib out (lib.sort (step_ids has_summary out)) ≡ cs
      → Bounded out size (bound_candidates lib limit has_summary resumable out size cs)
  unfolding bound_candidates measured
  bound_candidates-Bounded out size [] over e =
      inr (inl (refl, over, refl, inl (candidates-NoRows lib out _ e)))
  bound_candidates-Bounded out size (c ∷ cs) over e =
      if_cases (Bounded out size) (feasible lib limit has_summary resumable out (c ∷ cs)) _ _
        (λ t. inr (inr (settle-fits out size (c ∷ cs) t)))
        (λ f. inr (
          inl (
            refl,
            over,
            refl,
            inr (subst (Hopeless out) (sym e) (λ n b. infeasible out (c ∷ cs) n f b)),
          )))

  -- What `boundResponse` returns is the result it was given, when that fits already; the same, reported as
  -- unbounded, when no step has rows that can be measured or the text with all these rows cut would be
  -- over the limit still; and otherwise a result whose text is not over the limit. A text that cannot be
  -- built counts as over the limit when all rows are cut, and as empty in the end.
  pub bound_response-Bounded :
      (out : Object) (size : ℕ)
      → Bounded out size (bound_response lib limit has_summary resumable out size)
  unfolding bound_response
  bound_response-Bounded out size =
      if_cases (Bounded out size) (leb size limit) _ _ (λ e. inl (refl, ground arith, refl))
        (λ e. bound_candidates-Bounded out size _ (ground arith) refl)
