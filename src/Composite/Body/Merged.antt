-- ===== src/Composite/Body/Merged.antt =====
-- The merge of constructRequestBody of internal/composite/executor.go: it succeeds exactly when no field
-- has two sources, and then the body is the fields of all its sources.
use solace_broker_mcp.Common.{
  String, Bool, true, false, Option, none, some, if◌then◌else◌, ◌≡◌, ◌≢◌, refl, sym, ap, ◌∙◌, subst,
  arith, inl, inr, Bool-cases, Option-cases, ◌↔◌,
}
use solace_broker_mcp.Common.Result.{ok, err, ◌>>=◌, bind-ok, ok_of}
use solace_broker_mcp.Common.Json.{
  Json, null, boolean, number, text, array, object, Object, end, field, get, set, Keys,
}
use solace_broker_mcp.Composite.Body.{
  path_name, bounded_name, set_missing, set_field, spread, add_param, merge,
}

abbrev pub append : Object → Object → Object
append end b = b
append (field k v a) b = field k v (append a b)

append_end : (a : Object) → append a end ≡ a
append_end end = refl
append_end (field k v a) = rw (append_end a)

append_objects_assoc : (a b c : Object) → append (append a b) c ≡ append a (append b c)
append_objects_assoc end b c = refl
append_objects_assoc (field k v a) b c = rw (append_objects_assoc a b c)

abbrev or_else : Option Json → Option Json → Option Json
or_else (some v) o = some v
or_else none o = o

get-append : (k : String) (a b : Object) → get k (append a b) ≡ or_else (get k a) (get k b)
unfolding get
get-append k end b = refl
get-append k (field j v a) b = ground (arith, get-append k a b)

set_new :
    (k : String) (v : Json) (o : Object) → get k o ≡ none → set k v o ≡ append o (field k v end)
unfolding get set
set_new k v end h = refl
set_new k v (field j w o) h = ground (arith, set_new k v o)

Keys-append :
    (a b : Object) (k : String) (v : Json) → Keys (append a (field k v b)) → get k a ≡ none
unfolding get
Keys-append end b k v h = refl
Keys-append (field j w a) b k v h =
    ground (arith, Keys-append a b k v h.1, get-append j a (field k v b))

Keys-append_one :
    (a : Object) (k : String) (v : Json) → Keys a → get k a ≡ none → Keys (append a (field k v end))
unfolding get
Keys-append_one end k v h e = (refl, tt)
Keys-append_one (field j w a) k v h e =
    (ground (arith, get-append j a (field k v end), h.0), Keys-append_one a k v h.1 (ground arith))

-- The fields that a parameter brings into the body, and those of all of them.
abbrev pub fields_of : String → Json → Object
fields_of name (object o) = o
fields_of name v = field name v end

no_ok : (k : String) (v : Json) (body r : Object) (w : Json) → set_missing k v body (some w) ≢ ok r
unfolding set_missing
no_ok k v body r w h = cc

module _ (taken : String → Bool) where
  pub sources : Object → Object
  sources end = end
  sources (field name v params) =
      if taken name then sources params else append (fields_of name v) (sources params)

  abbrev pub Free : Object → Type 0
  Free end = Unit
  Free (field k v o) = (taken k ≡ false) × Free o

  abbrev pub FreeFields : Json → Type 0
  FreeFields (object o) = Free o
  FreeFields v = Unit

  -- No field of a parameter that is an object is one that the operation takes from elsewhere.
  pub Placed : Object → Type 0
  Placed end = Unit
  Placed (field name v params) = (taken name ≡ false → FreeFields v) × Placed params

  true_is : {A : Type 0} → true ≡ false → A
  true_is h = absurd cc

  no_path :
      (k name : String) (r : Object) → err (path_name (bounded_name k) (bounded_name name)) ≢ ok r
  no_path k name r h = cc

  -- A body that came to be from another by more fields.
  abbrev Grown : Object → Object → Object → Type 0
  Grown body more r = (r ≡ append body more) × (Keys body → Keys r)

  set_field-ok :
      (k : String) (v : Json) (body r : Object)
      → set_field k v body ≡ ok r
      → Grown body (field k v end) r
  unfolding set_field set_missing
  set_field-ok k v body r h = elim (Option-cases (get k body)) [
    | inl e ↦
        let it : r ≡ append body (field k v end) =
          sym (ok_of (sym (ap (set_missing k v body) e) ∙ h)) ∙ set_new k v body e in
        (it, λ u. subst Keys (sym it) (Keys-append_one body k v u e))
    | inr (w, e) ↦ absurd (no_ok k v body r w (sym (ap (set_missing k v body) e) ∙ h))
  ]

  spread-ok :
      (name : String) (o body r : Object)
      → spread taken name o body ≡ ok r
      → Grown body o r × Free o
  unfolding spread
  spread-ok name end body r h =
      ((sym (ok_of h) ∙ sym (append_end body), λ u. subst Keys (ok_of h) u), tt)
  spread-ok name (field k v o) body r h = elim (Bool-cases (taken k)) [
    | inl t ↦ absurd (
        no_path k name r (
          subst
            (λ b.
              (if b
                then err (path_name (bounded_name k) (bounded_name name))
                else (set_field k v body >>= λ body'. spread taken name o body'))
              ≡ ok r)
            t h))
    | inr t ↦
        let (body', first, rest) =
          bind-ok (set_field k v body) (λ body'. spread taken name o body') r
            (subst
              (λ b.
                (if b
                  then err (path_name (bounded_name k) (bounded_name name))
                  else (set_field k v body >>= λ body'. spread taken name o body'))
                ≡ ok r)
              t h) in
        let (e, u) = set_field-ok k v body body' first in
        let ((e', u'), free) = spread-ok name o body' r rest in
        (
          (
            e' ∙ ap (λ b. append b o) e ∙ append_objects_assoc body (field k v end) o,
            λ x. u' (u x),
          ),
          (t, free),
        )
  ]

  add_param-ok :
      (name : String) (v : Json) (body r : Object)
      → add_param taken name v body ≡ ok r
      → Grown body (fields_of name v) r × FreeFields v
  unfolding add_param
  add_param-ok name (object o) body r h = spread-ok name o body r h
  add_param-ok name null body r h = (set_field-ok name null body r h, tt)
  add_param-ok name (boolean b) body r h = (set_field-ok name (boolean b) body r h, tt)
  add_param-ok name (number n) body r h = (set_field-ok name (number n) body r h, tt)
  add_param-ok name (text s) body r h = (set_field-ok name (text s) body r h, tt)
  add_param-ok name (array a) body r h = (set_field-ok name (array a) body r h, tt)

  merge-ok :
      (params body r : Object)
      → merge taken params body ≡ ok r
      → Grown body (sources params) r × Placed params
  unfolding merge sources Placed
  merge-ok end body r h = ((sym (ok_of h) ∙ sym (append_end body), λ u. subst Keys (ok_of h) u), tt)
  merge-ok (field name v params) body r h = elim (Bool-cases (taken name)) [
    | inl t ↦
        let (g, p) = merge-ok params body r (
          subst
            (λ b.
              (if b
                then merge taken params body
                else (add_param taken name v body >>= λ body'. merge taken params body'))
              ≡ ok r)
            t h) in
        rw t (g, ((λ f. true_is f), p))
    | inr t ↦
        let (body', first, rest) =
          bind-ok (add_param taken name v body) (λ body'. merge taken params body') r
            (subst
              (λ b.
                (if b
                  then merge taken params body
                  else (add_param taken name v body >>= λ body'. merge taken params body'))
                ≡ ok r)
              t h) in
        let ((e, u), free) = add_param-ok name v body body' first in
        let ((e', u'), p) = merge-ok params body' r rest in
        rw t (
          (
            e'
                ∙ ap (λ b. append b (sources params)) e
                ∙ append_objects_assoc body (fields_of name v) (sources params),
            λ x. u' (u x),
          ),
          ((λ f. free), p),
        )
  ]

  set_field-new :
      (k : String) (v : Json) (body : Object)
      → get k body ≡ none
      → set_field k v body ≡ ok (append body (field k v end))
  unfolding set_field set_missing
  set_field-new k v body e = ap (set_missing k v body) e ∙ ap ok (set_new k v body e)

  spread-all :
      (name : String) (o body rest : Object)
      → Keys (append body (append o rest))
      → Free o
      → spread taken name o body ≡ ok (append body o)
  unfolding spread
  spread-all name end body rest u f = ap ok (sym (append_end body))
  spread-all name (field k v o) body rest u f =
      let u' : Keys (append (append body (field k v end)) (append o rest)) =
        subst Keys (sym (append_objects_assoc body (field k v end) (append o rest))) u in
      rw (f.0, set_field-new k v body (Keys-append body (append o rest) k v u))
        (spread-all name o (append body (field k v end)) rest u' f.1
          ∙ ap ok (append_objects_assoc body (field k v end) o))

  add_param-all :
      (name : String) (v : Json) (body rest : Object)
      → Keys (append body (append (fields_of name v) rest))
      → FreeFields v
      → add_param taken name v body ≡ ok (append body (fields_of name v))
  unfolding add_param
  add_param-all name (object o) body rest u f = spread-all name o body rest u f
  add_param-all name null body rest u f =
      set_field-new name null body (Keys-append body rest name null u)
  add_param-all name (boolean b) body rest u f =
      set_field-new name (boolean b) body (Keys-append body rest name (boolean b) u)
  add_param-all name (number n) body rest u f =
      set_field-new name (number n) body (Keys-append body rest name (number n) u)
  add_param-all name (text s) body rest u f =
      set_field-new name (text s) body (Keys-append body rest name (text s) u)
  add_param-all name (array a) body rest u f =
      set_field-new name (array a) body (Keys-append body rest name (array a) u)

  merge-all :
      (params body : Object)
      → Keys (append body (sources params))
      → Placed params
      → merge taken params body ≡ ok (append body (sources params))
  unfolding merge sources Placed
  merge-all end body u p = ap ok (sym (append_end body))
  merge-all (field name v params) body u p = elim (Bool-cases (taken name)) [
    | inl t ↦ rw t (
        merge-all params body
          (subst
            (λ b. Keys (
              append body
                (if b then sources params else append (fields_of name v) (sources params))))
            t u)
          p.1)
    | inr t ↦
        let u' =
          subst
            (λ b. Keys (
              append body
                (if b then sources params else append (fields_of name v) (sources params))))
            t u in
        rw t (
          ap (λ r. r >>= λ body'. merge taken params body')
            (add_param-all name v body (sources params) u' (p.0 t))
          ∙ merge-all params (append body (fields_of name v))
              (subst Keys (sym (append_objects_assoc body (fields_of name v) (sources params))) u')
              p.1
          ∙ ap ok (append_objects_assoc body (fields_of name v) (sources params)))
  ]

  -- The merge gives a body exactly when the fields that the parameters bring are pairwise different and
  -- none inside an object is one that the operation takes from elsewhere; the body is all these fields.
  pub merge-sources :
      (params body : Object)
      → (merge taken params end ≡ ok body)
        ↔ ((body ≡ sources params) × Keys (sources params) × Placed params)
  merge-sources params body = (
    (λ h. let ((e, u), p) = merge-ok params end body h in (e, subst Keys e (u tt), p)),
    λ h. merge-all params end h.1 h.2 ∙ ap ok (sym h.0),
  )
