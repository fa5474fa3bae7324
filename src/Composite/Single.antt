-- ===== src/Composite/Single.antt =====
-- runSingle and retryWithoutOptionalArgs of internal/composite/executor.go: the call of a step that does
-- not follow pages, and its one repetition. The client is an argument, asked with the number of the call.
pub mod Repeated
mod Tests
use solace_broker_mcp.Common.{
  ℕ, String, Bool, true, false, List, [], ◌∷◌, Option, none, some, ◌==◌, if◌then◌else◌,
}
use solace_broker_mcp.Common.Result.{Result, ok, err}
use solace_broker_mcp.Common.Json.{Json, Object, get, delete}

-- An error of the client: one with a SEMP error in its chain, which has a status, or another.
pub data ClientError : Type 0 where
  semp_status : ℕ → ClientError
  other_failure : String → ClientError

pub record Stripped : Type 0 where
  pub args : Object
  pub stripped : Bool

abbrev pub unstripped : Object → Stripped
unstripped args = record { args = args; stripped = false }

unfoldable pub strip_key : String → Stripped → Option Json → Stripped
strip_key k s none = s
strip_key k s (some v) = record { args = delete k s.args; stripped = true }

-- The loop over the optional arguments.
unfoldable pub strip_keys : List String → Stripped → Stripped
strip_keys [] s = s
strip_keys (k ∷ ks) s = strip_keys ks (strip_key k s (get k s.args))

abbrev pub is_bad_request : ClientError → Bool
is_bad_request (semp_status code) = code == 400
is_bad_request (other_failure message) = false

-- `retryWithoutOptionalArgs`, with the arguments that it leaves behind.
unfoldable pub retry_without_optional_args : List String → Object → ClientError → Stripped
retry_without_optional_args optional args e =
    if is_bad_request e then strip_keys optional (unstripped args) else unstripped args

-- The calls that were made, and what the last of them gave.
pub record Called : Type 0 where
  pub calls : List Object
  pub answer : Result ClientError Object

module _ (execute : ℕ → Object → Result ClientError Object) where
  unfoldable pub call_again : Object → ClientError → Stripped → Called
  call_again args e s =
      if s.stripped
      then record { calls = args ∷ s.args ∷ []; answer = execute 1 s.args }
      else record { calls = args ∷ []; answer = err e }

  unfoldable pub after_call : List String → Object → Result ClientError Object → Called
  after_call optional args (ok response) = record { calls = args ∷ []; answer = ok response }
  after_call optional args (err e) = call_again args e (retry_without_optional_args optional args e)

  -- The call of `runSingle`, and the second one where the first is retried.
  unfoldable pub run_single : List String → Object → Called
  run_single optional args = after_call optional args (execute 0 args)
