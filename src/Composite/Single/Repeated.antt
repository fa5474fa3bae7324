-- ===== src/Composite/Single/Repeated.antt =====
-- The repetition of a call in runSingle of internal/composite/executor.go.
use solace_broker_mcp.Common.{
  ℕ, String, Bool, true, false, List, [], ◌∷◌, Option, none, some, ◌≡◌, ◌≢◌, refl, sym, ap, ◌∙◌,
  ◌⊎◌, inl, inr, arith, ite, key_eq, if_cases, Option-cases, subst, if◌then◌else◌,
}
use solace_broker_mcp.Common.Result.{Result, ok, err, Result-cases}
use solace_broker_mcp.Common.Json.{Json, Object, end, field, get, delete, Keys, get-delete}
use solace_broker_mcp.Composite.Single.{
  Called, ClientError, semp_status, other_failure, Stripped, unstripped, strip_key, strip_keys,
  is_bad_request, retry_without_optional_args, call_again, after_call, run_single,
}

pub listed : String → List String → Bool
listed j [] = false
listed j (k ∷ ks) = ite (key_eq k j) true (listed j ks)

absent_stays : (k j : String) (o : Object) → get j o ≡ none → get j (delete k o) ≡ none
unfolding get delete
absent_stays k j end h = refl
absent_stays k j (field i w o) h = ground (arith, absent_stays k j o)

Keys-delete : (k : String) (o : Object) → Keys o → Keys (delete k o)
unfolding delete
Keys-delete k end u = tt
Keys-delete k (field j w o) u =
    elim (key_eq j k) as (λ d. Keys (ite d o (field j w (delete k o)))) [
      | yes _ ↦ u.1
      | no _ ↦ (absent_stays k j o u.0, Keys-delete k o u.1)
    ]

-- Without the listed keys, and as before at the others.
abbrev pub Without : List String → Object → Object → Type 0
Without ks args args' = (j : String) → get j args' ≡ (if listed j ks then none else get j args)

strip_key-Without :
    (k : String) (s : Stripped) (o : Option Json)
    → get k s.args ≡ o
    → Keys s.args
    → ((j : String) → get j (strip_key k s o).args ≡ ite (key_eq k j) none (get j s.args))
      × Keys (strip_key k s o).args
unfolding strip_key
strip_key-Without k s none e u = (
  (λ j. elim (key_eq k j) as (λ d. get j s.args ≡ ite d none (get j s.args)) [
    | yes p ↦ subst (λ i. get i s.args ≡ none) p e
    | no _ ↦ refl
  ]),
  u,
)
strip_key-Without k s (some v) e u = ((λ j. get-delete k j s.args u), Keys-delete k s.args u)

strip_keys-Without :
    (ks : List String) (s : Stripped) → Keys s.args → Without ks s.args (strip_keys ks s).args
unfolding strip_keys listed
strip_keys-Without [] s u j = refl
strip_keys-Without (k ∷ ks) s u j =
    let (at, u') = strip_key-Without k s (get k s.args) refl u in
    ground (arith, strip_keys-Without ks (strip_key k s (get k s.args)) u' j, at j)

-- One of the keys is there.
abbrev pub Found : List String → Object → Type 0
Found ks args = (k : String) × (v : Json) × (listed k ks ≡ true) × (get k args ≡ some v)

strip_keys-Found :
    (ks : List String) (s : Stripped)
    → (strip_keys ks s).stripped ≡ true
    → (s.stripped ≡ true) ⊎ Found ks s.args
unfolding strip_keys strip_key listed
strip_keys-Found [] s h = inl h
strip_keys-Found (k ∷ ks) s h = elim (Option-cases (get k s.args)) [
  | inl e ↦
      elim (strip_keys-Found ks s
        (sym (ap (λ o. (strip_keys ks (strip_key k s o)).stripped) e) ∙ h)) [
          | inl t ↦ inl t
          | inr (j, v, l, g) ↦ inr (j, v, ground arith, g)
        ]
  | inr (v, e) ↦ inr (k, v, ground arith, e)
]

strip_key-some :
    (k : String) (s : Stripped) (v : Json)
    → get k s.args ≡ some v
    → (strip_key k s (get k s.args)).stripped ≡ true
unfolding strip_key
strip_key-some k s v e = ap (λ o. (strip_key k s o).stripped) e

key_kept :
    (k : String) (s : Stripped)
    → get k s.args ≡ none
    → s.stripped ≡ true
    → (strip_key k s (get k s.args)).stripped ≡ true
unfolding strip_key
key_kept k s e h = ap (λ o. (strip_key k s o).stripped) e ∙ h

stripped_stays :
    (ks : List String) (s : Stripped) → s.stripped ≡ true → (strip_keys ks s).stripped ≡ true
unfolding strip_keys
stripped_stays [] s h = h
stripped_stays (k ∷ ks) s h =
    stripped_stays ks (strip_key k s (get k s.args)) (elim (Option-cases (get k s.args)) [
      | inl e ↦ key_kept k s e h
      | inr (v, e) ↦ strip_key-some k s v e
    ])

-- Where nothing was stripped, no listed key is there.
nothing_found :
    (ks : List String) (s : Stripped) (j : String) (v : Json)
    → (strip_keys ks s).stripped ≡ false
    → listed j ks ≡ true
    → get j s.args ≡ some v
    → ⊥
unfolding strip_keys strip_key listed
nothing_found [] s j v h l g = absurd cc
nothing_found (k ∷ ks) s j v h l g = elim (Option-cases (get k s.args)) [
  | inl e ↦
      (elim (key_eq k j) as (λ d. ite d true (listed j ks) ≡ true → ⊥) [
        | yes p ↦
            λ _. let gone : get j s.args ≡ none = subst (λ i. get i s.args ≡ none) p e in absurd cc
        | no _ ↦ λ rest.
            nothing_found ks s j v
              (sym (ap (λ o. (strip_keys ks (strip_key k s o)).stripped) e) ∙ h) rest g
      ])
        l
  | inr (w, e) ↦
      let t = stripped_stays ks (strip_key k s (get k s.args)) (strip_key-some k s w e) in absurd cc
]

Bad : (e : ClientError) → is_bad_request e ≡ true → e ≡ semp_status 400
Bad (semp_status code) h = ap semp_status (ground arith)
Bad (other_failure m) h = cc

module _ (execute : ℕ → Object → Result ClientError Object) (optional : List String)
    (args : Object) where
  -- One call, of which the answer is the step's: it was not rejected with a 400, or carried no optional
  -- argument.
  abbrev pub Once : Called → Type 0
  Once c =
      (c.calls ≡ args ∷ [])
      × (c.answer ≡ execute 0 args)
      × (execute 0 args ≡ err (semp_status 400) → Found optional args → ⊥)

  -- Two calls: the first was rejected with a 400 and carried an optional argument, the second carries
  -- none of them and is otherwise the same, and its answer is the step's.
  abbrev pub Twice : Called → Type 0
  Twice c =
      (args' : Object) × (c.calls ≡ args ∷ args' ∷ [])
      × (c.answer ≡ execute 1 args')
      × (execute 0 args ≡ err (semp_status 400))
      × Without optional args args'
      × Found optional args

  -- What the answer of a call is, once or twice.
  abbrev pub OnceOrTwice : Called → Type 0
  OnceOrTwice c = Once c ⊎ Twice c

  stripped-Twice :
      (e : ClientError)
      → execute 0 args ≡ err e
      → Keys args
      → is_bad_request e ≡ true
      → OnceOrTwice (call_again execute args e (strip_keys optional (unstripped args)))
  unfolding call_again
  stripped-Twice e at u bad =
      let s = strip_keys optional (unstripped args) in
      if_cases OnceOrTwice s.stripped _ _
        (λ t. elim (strip_keys-Found optional (unstripped args) t) [
          | inl f ↦ absurd cc
          | inr found ↦ inr (
            s.args,
            refl,
            refl,
            at ∙ ap err (Bad e bad),
            strip_keys-Without optional (unstripped args) u,
            found,
          )
        ])
        (λ f.
          inl (refl, sym at, λ _ (k, v, l, g). nothing_found optional (unstripped args) k v f l g))

  not_bad : (e : ClientError) → is_bad_request e ≡ false → e ≢ semp_status 400
  not_bad e f p = let t : is_bad_request e ≡ true = ap is_bad_request p in absurd cc

  err_of : {a b : ClientError} → ◌≡◌ {A = Result ClientError Object} (err a) (err b) → a ≡ b
  err_of h = cc

  ok_not_err : (r : Object) (e : ClientError) → ok r ≢ err e
  ok_not_err r e h = cc

  call_again-OnceOrTwice :
      (e : ClientError)
      → execute 0 args ≡ err e
      → Keys args
      → OnceOrTwice (call_again execute args e (retry_without_optional_args optional args e))
  unfolding retry_without_optional_args call_again
  call_again-OnceOrTwice e at u =
      if_cases (λ s. OnceOrTwice (call_again execute args e s)) (is_bad_request e) _ _
        (λ t. stripped-Twice e at u t)
        (λ f. inl (refl, sym at, λ b _. not_bad e f (err_of (sym at ∙ b))))

  -- A step makes two calls where the first is rejected with a 400 and carries an optional argument, and
  -- one call otherwise. The second carries no optional argument and is otherwise the same; the
  -- step's answer is that of its last call.
  pub run_single-OnceOrTwice :
      Keys args → Once (run_single execute optional args) ⊎ Twice (run_single execute optional args)
  unfolding run_single after_call
  run_single-OnceOrTwice u = elim (Result-cases (execute 0 args)) [
    | inl (r, e) ↦
        subst (λ a. OnceOrTwice (after_call execute optional args a)) (sym e)
          (inl (refl, sym e, λ b _. ok_not_err r (semp_status 400) (sym e ∙ b)))
    | inr (er, e) ↦
        subst (λ a. OnceOrTwice (after_call execute optional args a)) (sym e)
          (call_again-OnceOrTwice er e u)
  ]
