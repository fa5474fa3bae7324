-- ===== src/Composite/Checks/Passed.antt =====
-- What a request body is known to be when the checks of internal/composite/bodychecks.go let it pass.
use solace_broker_mcp.Common.{
  ℕ, zero, suc, String, Bool, false, List, [], ◌∷◌, Option, none, some, get_elem?, ◌≡◌, refl, arith,
  subst,
}
use solace_broker_mcp.Common.Result.{ok, bind-ok}
use solace_broker_mcp.Common.Json.{Json, Object, end, field, get}
use solace_broker_mcp.Composite.Checks.{
  BodyMode, body_mode_for, BodyCheck, body_check, has_key, first_key, reject_secret_fields,
  run_check, run_found, run_in_mode, run_all, run_body_checks,
}

module _ (equal_fold : String → String → Bool) where
  the_some : {A : Type 0} {a b : A} → some a ≡ some b → a ≡ b
  the_some h = cc

  run_found-each :
      (name : String) (o : Option BodyCheck) (mode : BodyMode) (body : Object)
      → run_found equal_fold name o mode body ≡ ok tt
      → (check : BodyCheck) × (o ≡ some check) × (run_check equal_fold check mode body ≡ ok tt)
  unfolding run_found
  run_found-each name none mode body h = cc
  run_found-each name (some check) mode body h = (check, refl, h)

  run_all-each :
      (names : List String) (mode : BodyMode) (body : Object) (i : ℕ) (name : String)
      → run_all equal_fold names mode body ≡ ok tt
      → get_elem? names i ≡ some name
      → run_found equal_fold name (body_check name) mode body ≡ ok tt
  unfolding run_all
  run_all-each [] mode body i name h e = cc
  run_all-each (n ∷ names) mode body zero name h e =
      let (u, first, rest) =
        bind-ok (run_found equal_fold n (body_check n) mode body)
          (λ _. run_all equal_fold names mode body) tt h in
      subst (λ m. run_found equal_fold m (body_check m) mode body ≡ ok tt) (the_some e) first
  run_all-each (n ∷ names) mode body (suc j) name h e =
      let (u, first, rest) =
        bind-ok (run_found equal_fold n (body_check n) mode body)
          (λ _. run_all equal_fold names mode body) tt h in
      run_all-each names mode body j name rest e

  run_in_mode-each :
      (names : List String) (op_id : String) (o : Option BodyMode) (body : Object) (i : ℕ)
      (name : String)
      → run_in_mode equal_fold names op_id o body ≡ ok tt
      → get_elem? names i ≡ some name
      → (mode : BodyMode) × (check : BodyCheck) × (o ≡ some mode)
        × (body_check name ≡ some check)
        × (run_check equal_fold check mode body ≡ ok tt)
  unfolding run_in_mode
  run_in_mode-each names op_id none body i name h e = cc
  run_in_mode-each names op_id (some mode) body i name h e =
      let (check, known, passed) =
        run_found-each name (body_check name) mode body (run_all-each names mode body i name h e) in
      (mode, check, refl, known, passed)

  -- A body passes only when each of the named checks is a known one that ran on it, for the kind of
  -- write that the operation is, and let it pass: none is skipped.
  pub run_body_checks-each :
      (names : List String) (op_id : String) (body : Object) (i : ℕ) (name : String)
      → run_body_checks equal_fold names op_id body ≡ ok tt
      → get_elem? names i ≡ some name
      → (mode : BodyMode) × (check : BodyCheck) × (body_mode_for op_id ≡ some mode)
        × (body_check name ≡ some check)
        × (run_check equal_fold check mode body ≡ ok tt)
  unfolding run_body_checks
  run_body_checks-each [] op_id body i name h e = cc
  run_body_checks-each (n ∷ names) op_id body i name h e =
      run_in_mode-each (n ∷ names) op_id (body_mode_for op_id) body i name h e

  pub has_key-get :
      (body : Object) (k name : String) (v : Json)
      → get k body ≡ some v
      → has_key equal_fold body name ≡ false
      → equal_fold k name ≡ false
  unfolding has_key get
  has_key-get end k name v g h = cc
  has_key-get (field j w o) k name v g h = ground (arith, has_key-get o k name v)

  pub first_key-none :
      (body : Object) (names : List String) (i : ℕ) (name : String)
      → first_key equal_fold body names ≡ none
      → get_elem? names i ≡ some name
      → has_key equal_fold body name ≡ false
  unfolding first_key
  first_key-none body [] i name h e = cc
  first_key-none body (n ∷ names) zero name h e = ground arith
  first_key-none body (n ∷ names) (suc i) name h e =
      ground (arith, first_key-none body names i name)

  -- A check for secrets passes a body only if no key of it is one of the secret names, in whatever case
  -- the key is written.
  pub reject_secret_fields-clean :
      (fields : List String) (mode : BodyMode) (body : Object) (i : ℕ) (secret k : String)
      (v : Json)
      → reject_secret_fields equal_fold fields mode body ≡ ok tt
      → get_elem? fields i ≡ some secret
      → get k body ≡ some v
      → equal_fold k secret ≡ false
  unfolding reject_secret_fields
  reject_secret_fields-clean fields mode body i secret k v h e g =
      has_key-get body k secret v g (first_key-none body fields i secret (ground arith) e)
