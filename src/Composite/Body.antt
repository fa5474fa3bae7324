-- ===== src/Composite/Body.antt =====
-- constructRequestBody of internal/composite/executor.go: the request body is put together from the
-- parameters of the call. The parameters are a Go map, which is ranged over in no fixed order; here in
-- the order of the list, which decides between two errors and nothing else.
mod Tests
pub mod Merged
use Prim.Native.String.{[] as empty, ◌∷◌ as add_char, ◌++◌ as push, count}
use solace_broker_mcp.Common.{
  ℕ, zero, suc, String, key_eq, Bool, true, false, not, ◌||◌, ◌&&◌, List, [], ◌∷◌, Option, none,
  some, leb, if◌then◌else◌,
}
use solace_broker_mcp.Common.Texts.{is_text}
use solace_broker_mcp.Common.Result.{Result, ok, err, ◌>>=◌}
use solace_broker_mcp.Common.Json.{
  Json, null, boolean, number, text, array, object, Object, end, field, get, set,
}
use solace_broker_mcp.Composite.Checks.{CheckError, run_body_checks}

pub record Parameter : Type 0 where
  pub name : String
  pub location : String

-- `body_fields` is none where the operation's schema could not be read.
pub record Operation : Type 0 where
  pub id : String
  pub parameters : List Parameter
  pub body_fields : Option (List String)

pub data BodyError : Type 0 where
  ambiguous : (name : String) → BodyError
  path_name : (name config : String) → BodyError
  failed_check : CheckError → BodyError
  unknown_field : (name op_id : String) → BodyError
  no_body_for_checks : (op_id : String) → BodyError

abbrev pub max_echoed_name_runes : ℕ
max_echoed_name_runes = 128

unfoldable pub take_runes : ℕ → String → String
take_runes zero s = ""
take_runes (suc n) empty = ""
take_runes (suc n) (add_char c s) = add_char c (take_runes n s)

unfoldable pub bounded_name : String → String
bounded_name name =
    if leb (count name) max_echoed_name_runes
    then name
    else push (take_runes max_echoed_name_runes name) "…"

pub has_body : List Parameter → Bool
has_body [] = false
has_body (p ∷ ps) = is_text p.location "body" || has_body ps

-- The names that the operation takes from elsewhere than the body.
pub non_body : List Parameter → String → Bool
non_body [] k = false
non_body (p ∷ ps) k = not (is_text p.location "body") && is_text k p.name || non_body ps k

pub set_missing : String → Json → Object → Option Json → Result BodyError Object
set_missing k v body none = ok (set k v body)
set_missing k v body (some w) = err (ambiguous (bounded_name k))

-- The closure `set`: a field that is defined already is refused.
pub set_field : String → Json → Object → Result BodyError Object
set_field k v body = set_missing k v body (get k body)

module _ (taken : String → Bool) where
  -- The fields of a parameter that is an object.
  pub spread : String → Object → Object → Result BodyError Object
  spread name end body = ok body
  spread name (field k v o) body =
      if taken k
      then err (path_name (bounded_name k) (bounded_name name))
      else (set_field k v body >>= λ body'. spread name o body')

  pub add_param : String → Json → Object → Result BodyError Object
  add_param name (object o) body = spread name o body
  add_param name v body = set_field name v body

  pub merge : Object → Object → Result BodyError Object
  merge end body = ok body
  merge (field name v params) body =
      if taken name
      then merge params body
      else (add_param name v body >>= λ body'. merge params body')

unfoldable pub known : List String → String → Bool
known [] k = false
known (f ∷ fs) k = is_text k f || known fs k

unfoldable pub check_known : List String → String → Object → Result BodyError Unit
check_known fields op_id end = ok tt
check_known fields op_id (field k v o) =
    if known fields k
    then check_known fields op_id o
    else err (unknown_field (bounded_name k) op_id)

unfoldable pub known_fields : Option (List String) → String → Object → Result BodyError Unit
known_fields none op_id body = ok tt
known_fields (some fields) op_id body = check_known fields op_id body

pub checked : Result CheckError Unit → Result BodyError Unit
checked (ok u) = ok tt
checked (err e) = err (failed_check e)

unfoldable pub no_checks : List String → String → Object → Result BodyError Object
no_checks [] op_id args = ok args
no_checks (check ∷ checks) op_id args = err (no_body_for_checks op_id)

pub construct_request_body :
    (equal_fold : String → String → Bool)
    → Operation
    → (args params : Object) → (checks : List String) → Result BodyError Object
construct_request_body equal_fold op args params checks =
    if has_body op.parameters
    then (merge (non_body op.parameters) params end >>= λ body.
        checked (run_body_checks equal_fold checks op.id body) >>= λ _.
        known_fields op.body_fields op.id body >>= λ _. ok (set "body" (object body) args))
    else no_checks checks op.id args
