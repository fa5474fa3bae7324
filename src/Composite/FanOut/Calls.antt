-- ===== src/Composite/FanOut/Calls.antt =====
-- The calls of fetchFanOut of internal/composite/executor.go, in any order of their ends.
use mathlib.Core.List.{Memᴰ}
use mathlib.Core.List.Memᴰ
use solace_broker_mcp.Common.{
  String, List, [], ◌∷◌, Option, some, ◌≡◌, refl, sym, ap, ◌∙◌, ◌⊎◌, inl, inr, ite, key_eq, subst,
}
use solace_broker_mcp.Common.Result.{Result, ok, err, bind-ok, ok_of}
use solace_broker_mcp.Common.Json.{Json, object, Object, get, set, get-set}
use solace_broker_mcp.Composite.FanOut.{FanOutError, row_failed, Job, of_row, end_calls}

pub of_row-ok :
    {A : Type 0} (f : String → FanOutError) (r : Result String A) (a : A)
    → of_row f r ≡ ok a
    → r ≡ ok a
unfolding of_row
of_row-ok f (ok b) a h = ap ok (ok_of h)
of_row-ok f (err e) a h = absurd cc

-- No two of the jobs have the same key.
abbrev pub Unique : List Job → Type 0
Unique js = (i j : Job) → Memᴰ i js → Memᴰ j js → i.key ≡ j.key → i ≡ j

module _ (run : Object → Result String Object) where
  -- The answer of a job.
  abbrev pub Answers : String → Json → Job → Type 0
  Answers k v j = (found : Object) × (j.key ≡ k) × (run j.row ≡ ok found) × (v ≡ object found)

  Answers-same : (k : String) (v w : Json) (j : Job) → Answers k v j → Answers k w j → v ≡ w
  Answers-same k v w j (a, _, r, e) (b, _, r', e') = e ∙ ap object (ok_of (sym r ∙ r')) ∙ sym e'

  value_of : {v w : Json} → ◌≡◌ {A = Option Json} (some v) (some w) → w ≡ v
  value_of h = cc

  first_call :
      (j : Job) (js : List Job) (m m' : Object)
      → end_calls run (j ∷ js) m ≡ ok m'
      → (found : Object) × (run j.row ≡ ok found)
        × (end_calls run js (set j.key (object found) m) ≡ ok m')
  unfolding end_calls
  first_call j js m m' h =
      let (found, r, h') =
        bind-ok (of_row row_failed (run j.row)) (λ x. end_calls run js (set j.key (object x) m)) m'
          h in
      (found, of_row-ok row_failed (run j.row) found r, h')

  -- An answer stays where no other answer comes under its key.
  end_calls-stays :
      (js : List Job) (m m' : Object) (k : String) (v : Json)
      → end_calls run js m ≡ ok m'
      → get k m ≡ some v
      → ((j : Job) (w : Json) → Memᴰ j js → Answers k w j → v ≡ w)
      → get k m' ≡ some v
  unfolding end_calls
  end_calls-stays [] m m' k v h g same = ap (get k) (sym (ok_of h)) ∙ g
  end_calls-stays (j ∷ js) m m' k v h g same =
      let (found, r, h') = first_call j js m m' h in
      end_calls-stays js (set j.key (object found) m) m' k v h'
        (get-set j.key k (object found) m
          ∙ (elim (key_eq j.key k) as (λ d. ite d (some (object found)) (get k m) ≡ some v) [
            | yes e ↦ ap some (sym (same j (object found) (Memᴰ.head refl) (found, e, r, refl)))
            | no _ ↦ g
          ]))
        (λ i w i_in. same i w (Memᴰ.tail i_in))

  pub end_calls-Answers :
      (js : List Job) (m m' : Object) (k : String) (v : Json)
      → Unique js
      → end_calls run js m ≡ ok m'
      → (j : Job) → Memᴰ j js
      → Answers k v j
      → get k m' ≡ some v
  unfolding end_calls
  end_calls-Answers [] m m' k v u h j j_in a = absurd (Memᴰ.not-nil j_in)
  end_calls-Answers (i ∷ js) m m' k v u h j j_in a =
      let (found, r, h') = first_call i js m m' h in
      elim (Memᴰ.cases_cons j_in) [
        | inl e ↦
            let at = subst (Answers k v) e a in
            end_calls-stays js (set i.key (object found) m) m' k v h'
              (get-set i.key k (object found) m
                ∙ (elim (key_eq i.key k) as (λ d. ite d (some (object found)) (get k m) ≡ some v) [
                  | yes p ↦ ap some (Answers-same k (object found) v i (found, p, r, refl) at)
                  | no n ↦ absurd (n at.1)
                ]))
              (λ l w l_in b.
                Answers-same k v w l
                  (subst (Answers k v) (u i l (Memᴰ.head refl) (Memᴰ.tail l_in) (at.1 ∙ sym b.1))
                    at)
                  b)
        | inr later ↦
            end_calls-Answers js (set i.key (object found) m) m' k v
              (λ x y x_in y_in. u x y (Memᴰ.tail x_in) (Memᴰ.tail y_in)) h' j later a
      ]

  pub end_calls-asked :
      (js : List Job) (m m' : Object) (k : String) (v : Json)
      → end_calls run js m ≡ ok m'
      → get k m' ≡ some v
      → ((j : Job) × Memᴰ j js × Answers k v j) ⊎ (get k m ≡ some v)
  unfolding end_calls
  end_calls-asked [] m m' k v h g = inr (ap (get k) (ok_of h) ∙ g)
  end_calls-asked (j ∷ js) m m' k v h g =
      let (found, r, h') = first_call j js m m' h in
      elim (end_calls-asked js (set j.key (object found) m) m' k v h' g) [
        | inl (i, i_in, a) ↦ inl (i, Memᴰ.tail i_in, a)
        | inr e ↦
            (elim (key_eq j.key k)
                as (λ d.
                  ite d (some (object found)) (get k m) ≡ some v
                  → ((i : Job) × Memᴰ i (j ∷ js) × Answers k v i) ⊎ (get k m ≡ some v)) [
                    | yes p ↦ λ q. inl (j, Memᴰ.head refl, (found, p, r, value_of q))
                    | no _ ↦ λ q. inr q
                  ])
              (sym (get-set j.key k (object found) m) ∙ e)
      ]
