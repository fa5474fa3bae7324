-- ===== src/Composite/FanOut/Rows.antt =====
-- fetchFanOut of internal/composite/executor.go: the rows whose calls are made, each once, and the answers
-- under their keys.
use mathlib.Core.List.{Memᴰ}
use mathlib.Core.List.Memᴰ
use solace_broker_mcp.Common.{
  ◌++◌, Bool, true, length, inl, inr, ◌⊎◌, ℕ, length, ◌+◌, String, Bool, List, [], Option, some,
  ◌≡◌, sym, ap, ◌∙◌, inl, inr, arith, ◌↔◌,
}
use solace_broker_mcp.Common.Result.{Result, ok, ◌>>=◌, bind-ok, ok_of}
use solace_broker_mcp.Common.Json.{Json, Object, end, get}
use solace_broker_mcp.Composite.FanOut.{
  Job, Dispatched, parent_rows, dispatch_rows, end_calls, fan_out_result, finish_fan_out,
  fetch_fan_out,
}
use solace_broker_mcp.Composite.FanOut.Calls.{Unique, Answers, end_calls-Answers, end_calls-asked}
use solace_broker_mcp.Composite.FanOut.Jobs.{Picked, dispatch_rows-Dispatches}

module _ (for_each_if : Object → Result String Bool) (run : Object → Result String Object)
    (gone : ℕ → Bool) (order : List Job → List Job) (int : ℕ → Json) (for_each_key : String) where
  -- The jobs of the rows: those that pass the predicate, one for a key, and the others skipped.
  abbrev pub JobsOf : List Json → List Job → ℕ → Type 0
  JobsOf rows jobs skipped =
      ((j : Job) → Memᴰ j jobs ↔ Picked for_each_if for_each_key rows j)
      × Unique jobs
      × (length jobs + skipped ≡ length rows)

  -- Under a key there is an answer exactly where a job with that key has it.
  abbrev pub AnswersOf : List Job → Object → Type 0
  AnswersOf jobs by_key =
      (k : String) (v : Json)
      → (get k by_key ≡ some v) ↔ ((j : Job) × Memᴰ j jobs × Answers run k v j)

  end_calls-AnswersOf :
      (jobs ended : List Job) (m : Object)
      → Unique jobs
      → ((j : Job) → Memᴰ j ended ↔ Memᴰ j jobs)
      → end_calls run ended end ≡ ok m
      → AnswersOf jobs m
  unfolding get
  end_calls-AnswersOf jobs ended m u same h k v = (
    (λ g. elim (end_calls-asked run ended end m k v h g) [
      | inl (j, j_in, a) ↦ (j, (same j).0 j_in, a)
      | inr e ↦ absurd cc
    ]),
    (λ (j, j_in, a).
        end_calls-Answers run ended end m k v
          (λ x y x_in y_in. u x y ((same x).0 x_in) ((same y).0 y_in)) h j ((same j).1 j_in) a),
  )

  -- A fan-out that succeeds has taken the first of the rows, and all of them unless the context had ended
  -- when the next call would have started. It has made one call for each row taken that passes the
  -- predicate, all these with a key of their own, and skipped the others; its answers are those calls',
  -- each under its row's key, in whatever order the calls ended.
  pub fetch_fan_out-Rows :
      (parent_data : Option Json) (rows : List Json) (response : Object)
      → parent_rows parent_data ≡ ok rows
      → ((js : List Job) (j : Job) → Memᴰ j (order js) ↔ Memᴰ j js)
      → fetch_fan_out for_each_if run gone order int for_each_key parent_data ≡ ok response
      → (by_key : Object) × (skipped : ℕ) × (jobs : List Job) × (taken : List Json) × (rest : List
          Json)
        × (response ≡ fan_out_result int skipped by_key)
        × (rows ≡ taken ++ rest)
        × ((rest ≡ []) ⊎ (gone (length jobs) ≡ true))
        × JobsOf taken jobs skipped
        × AnswersOf jobs by_key
  unfolding fetch_fan_out finish_fan_out
  fetch_fan_out-Rows parent_data rows response p same h =
      let start : Dispatched = record { jobs = []; skipped = 0 } in
      let (rows', p', h1) =
        bind-ok (parent_rows parent_data)
          (λ rs.
            dispatch_rows for_each_if for_each_key gone start rs
            >>= finish_fan_out for_each_if run gone order int)
          response h in
      let rows_eq : rows' ≡ rows = ok_of (sym p' ∙ p) in
      let (d, e, h2) =
        bind-ok (dispatch_rows for_each_if for_each_key gone start rows')
          (finish_fan_out for_each_if run gone order int) response h1 in
      let (m, ended, h3) =
        bind-ok (end_calls run (order d.jobs) end)
          (λ by_key. ok (fan_out_result int d.skipped by_key)) response h2 in
      let e' = ap (dispatch_rows for_each_if for_each_key gone start) (sym rows_eq) ∙ e in
      let (taken, rest, split, (out, into, unique), count, why) =
        dispatch_rows-Dispatches for_each_if for_each_key gone rows start d e' in
      let u : Unique d.jobs = unique (λ x y x_in y_in _. absurd (Memᴰ.not-nil x_in)) in
      (
        m,
        d.skipped,
        d.jobs,
        taken,
        rest,
        sym (ok_of h3),
        split,
        why,
        (
          (λ j. (
            (λ j_in. elim (out j j_in) [ inl a ↦ absurd (Memᴰ.not-nil a) | inr t ↦ t ]),
            (λ t. into j (inr t)),
          )),
          u,
          omega arith,
        ),
        end_calls-AnswersOf d.jobs (order d.jobs) m u (same d.jobs) ended,
      )
