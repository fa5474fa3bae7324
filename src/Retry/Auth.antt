-- ===== src/Retry/Auth.antt =====
-- The 401 of a request: how often it is answered with new credentials, and what is recorded of it.
use solace_broker_mcp.Common.{
  ℕ, ◌≡◌, true, false, Option, none, some, if◌then◌else◌, arith, inl, ◌⊎◌, not, ◌==◌,
}
use solace_broker_mcp.Retry.{
  RetryState, Attempt, Hooks, check_retry, check_write, check_transport, check_401, check_other,
  first_401, check_response, check_status, prepare_retry, is_write, audit_outcome, outcome_success,
  outcome_error,
}
use solace_broker_mcp.Retry.Bounds.{check_retry-check_response}

-- The state's own reading of the flags: a request is recovered only after a 401.
abbrev pub Consistent : RetryState → Type 0
Consistent st = (st.auth401_retried ≡ true) ⊎ (st.auth_recovered ≡ false)

check_response-outcome :
    (hooks : Hooks) (st : RetryState) (a : Attempt) (code : ℕ)
    → Consistent st
    → let d = check_response hooks st a code in
      Consistent d.state
      × (audit_outcome d.state ≡ (
          if not d.state.auth401_retried
          then none
          else if code == 401
          then some outcome_error
          else some outcome_success))
unfolding check_response check_401 first_401 check_other audit_outcome
check_response-outcome hooks st a code c = ground arith

-- After each response that the policy reads (no write, no failure, context alive), the record
-- that is due says how the request stands: none if no 401 was met, an error if this response is a
-- 401, and else a success; the two flags stay consistent.
pub audit_follows :
    (hooks : Hooks) (st : RetryState) (a : Attempt) (code : ℕ)
    → Consistent st
    → a.ctx_done ≡ false
    → is_write st ≡ false
    → a.failed ≡ false
    → a.status ≡ some code
    → Consistent (check_retry hooks st a).state
      × (audit_outcome (check_retry hooks st a).state ≡ (
          if not (check_retry hooks st a).state.auth401_retried
          then none
          else if code == 401
          then some outcome_error
          else some outcome_success))
audit_follows hooks st a code c x w f s =
    rw (check_retry-check_response hooks st a code x w f s)
      (check_response-outcome hooks st a code c)

reauth_other :
    (st : RetryState) (code : ℕ) → (check_other st code).state.needs_reauth ≡ st.needs_reauth
unfolding check_other
reauth_other st code = ground arith

reauth_status :
    (hooks : Hooks) (st : RetryState) (a : Attempt) (o : Option ℕ)
    → st.needs_reauth ≡ false
    → ((check_status hooks st a o).state.needs_reauth ≡ false)
      ⊎ ((o ≡ some 401)
          × (st.auth401_retried ≡ false)
          × ((check_status hooks st a o).retry ≡ true)
          × ((hooks.handle_auth_failure a).re_auth ≡ true))
unfolding check_status check_response check_401 first_401
reauth_status hooks st a none n = inl n
reauth_status hooks st a (some code) n =
    ground (arith, reauth_other st code, reauth_other (record st { auth_recovered = true }) code)

-- Starting without a pending request for new credentials, one decision asks for them only when it
-- retries a first 401 whose answer from the authenticator asks for it, and `prepareRetry` then
-- renews them once and clears the request.
pub reauth_once :
    (hooks : Hooks) (st : RetryState) (a : Attempt)
    → st.needs_reauth ≡ false
    → (((check_retry hooks st a).state.needs_reauth ≡ false)
        ⊎ ((a.status ≡ some 401)
            × (st.auth401_retried ≡ false)
            × ((check_retry hooks st a).retry ≡ true)
            × ((hooks.handle_auth_failure a).re_auth ≡ true)))
      × ((prepare_retry (check_retry hooks st a).state).0.needs_reauth ≡ false)
      × ((prepare_retry (check_retry hooks st a).state).1
          ≡ (check_retry hooks st a).state.needs_reauth)
unfolding check_retry check_write check_transport prepare_retry
reauth_once hooks st a n =
    (ground (arith, reauth_status hooks st a a.status n), ground arith, ground arith)
