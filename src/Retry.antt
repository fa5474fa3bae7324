-- ===== src/Retry.antt =====
-- The retry policy of internal/semp/resilience/retry.go: `retryState` and `checkRetry`, which the HTTP
-- client calls after each attempt, and `prepareRetry` of sender.go, which it calls before the next.
pub mod Bounds
pub mod Caps
pub mod Gates
pub mod Auth
mod Tests
use solace_broker_mcp.Common.{
  ℕ, zero, suc, ◌+◌, String, List, [], ◌∷◌, Bool, true, false, Option, none, some, key_eq, ite, leb,
  ◌==◌, if◌then◌else◌, ◌&&◌, ◌||◌, not,
}

pub record RetryState : Type 0 where
  pub request_written : Bool
  pub auth401_retried : Bool
  pub auth_recovered : Bool
  pub other5xx_retried : Bool
  pub transient_retried : ℕ
  pub method : String
  pub retry_safe : Bool
  pub retry_unsafe : Bool
  pub needs_reauth : Bool

pub data CheckError : Type 0 where
  context_error default_policy_error transient_cap_reached non_idempotent_not_retried : CheckError

-- What `checkRetry` is called with: whether `ctx.Err()` is set, the status of the response if there is
-- one, and whether the attempt failed in transport.
pub record Attempt : Type 0 where
  pub ctx_done : Bool
  pub status : Option ℕ
  pub failed : Bool

pub record AuthFailureResult : Type 0 where
  pub retry : Bool
  pub re_auth : Bool

-- The two calls that leave this package: `retryablehttp.DefaultRetryPolicy` and the authenticator's
-- `HandleAuthFailure`.
pub record Hooks : Type 0 where
  pub default_policy : Attempt → Bool × Option CheckError
  pub handle_auth_failure : Attempt → AuthFailureResult

-- `spent` is the local `allowanceSpent`.
pub record Decision : Type 0 where
  pub state : RetryState
  pub retry : Bool
  pub error : Option CheckError
  pub spent : Bool

abbrev pub max_transient_retries : ℕ
max_transient_retries = 3

-- The state that `Do` attaches to a request.
abbrev pub new_retry_state : String → Bool → Bool → RetryState
new_retry_state method safe unsafe = record {
  request_written = false;
  auth401_retried = false;
  auth_recovered = false;
  other5xx_retried = false;
  transient_retried = 0;
  method = method;
  retry_safe = safe;
  retry_unsafe = unsafe;
  needs_reauth = false;
}

pub retryable_status : ℕ → Bool
retryable_status code = code == 429 || leb 500 code

abbrev stop : RetryState → Option CheckError → Decision
stop st e = record { state = st; retry = false; error = e; spent = false }

abbrev again : RetryState → Decision
again st = record { state = st; retry = true; error = none; spent = false }

abbrev used_up : RetryState → Option CheckError → Decision
used_up st e = record { state = st; retry = false; error = e; spent = true }

-- The write of a POST or PATCH that the caller has not marked as safe to repeat.
unfoldable pub is_write : RetryState → Bool
is_write st =
    (ite (key_eq st.method "POST") true (ite (key_eq st.method "PATCH") true false))
    && not st.retry_safe

pub retryable_response : Attempt → Bool
retryable_response a = elim a.status [ none ↦ false | some code ↦ retryable_status code ]

pub check_write : RetryState → Attempt → Decision
check_write st a =
    if st.retry_unsafe && (retryable_response a && not a.failed)
    then stop st (some non_idempotent_not_retried)
    else stop st none

pub check_transport : Hooks → RetryState → Attempt → Decision
check_transport hooks st a =
    let answer = hooks.default_policy a in
    if st.retry_unsafe
    then stop st none
    else record { state = st; retry = answer.0; error = answer.1; spent = false }

pub first_401 : RetryState → AuthFailureResult → Decision
first_401 st result =
    if result.retry then again (record st { needs_reauth = result.re_auth }) else stop st none

pub check_401 : Hooks → RetryState → Attempt → Decision
check_401 hooks st a =
    let st' : RetryState = record st { auth_recovered = false } in
    if not st.auth401_retried
    then first_401 (record st' { auth401_retried = true }) (hooks.handle_auth_failure a)
    else used_up st' none

-- The gate for requests declared non-idempotent, and the final `switch`.
pub check_other : RetryState → ℕ → Decision
check_other st code =
    if st.retry_unsafe && retryable_status code
    then stop st (some non_idempotent_not_retried)
    else if code == 429 || code == 503
    then if leb max_transient_retries st.transient_retried
      then used_up st (some transient_cap_reached)
      else again (record st { transient_retried = st.transient_retried + 1 })
    else if leb 500 code
    then if not st.other5xx_retried
      then again (record st { other5xx_retried = true })
      else used_up st none
    else stop st none

pub check_response : Hooks → RetryState → Attempt → ℕ → Decision
check_response hooks st a code =
    if code == 401
    then check_401 hooks st a
    else check_other (if st.auth401_retried then record st { auth_recovered = true } else st) code

-- `resp == nil` is no response.
pub check_status : Hooks → RetryState → Attempt → Option ℕ → Decision
check_status hooks st a none = stop st none
check_status hooks st a (some code) = check_response hooks st a code

pub check_retry : Hooks → RetryState → Attempt → Decision
check_retry hooks st a =
    if a.ctx_done
    then stop st (some context_error)
    else if is_write st
    then check_write st a
    else if a.failed
    then check_transport hooks st a
    else check_status hooks st a a.status

-- `prepareRetry`, with whether it calls the authenticator's `AddAuth`.
pub prepare_retry : RetryState → RetryState × Bool
prepare_retry st =
    if st.needs_reauth then (record st { needs_reauth = false }, true) else (st, false)

-- The retries that the policy asks for over the attempts of one request, up to its first refusal.
pub retries : Hooks → RetryState → List Attempt → ℕ
retries hooks st [] = 0
retries hooks st (a ∷ rest) =
    let d = check_retry hooks st a in
    let more = retries hooks (prepare_retry d.state).0 rest in if d.retry then more + 1 else 0

pub data Outcome : Type 0 where
  outcome_success outcome_error : Outcome

-- `auditBrokerAuthRetryOutcome`: the record that is written at the end, if any.
pub audit_outcome : RetryState → Option Outcome
audit_outcome st =
    if not st.auth401_retried
    then none
    else if st.auth_recovered
    then some outcome_success
    else some outcome_error
