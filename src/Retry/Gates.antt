-- ===== src/Retry/Gates.antt =====
-- Which requests `checkRetry` never lets be sent again, and for what reasons it does.
use solace_broker_mcp.Common.{
  ℕ, ◌≡◌, List, [], ◌∷◌, true, false, Option, none, some, arith, Bool-cases, inl, inr, refl,
}
use solace_broker_mcp.Retry.{
  RetryState, Attempt, Hooks, check_retry, check_write, check_transport, check_401, check_other,
  first_401, check_response, check_status, retries, is_write, retryable_status, retryable_response,
  non_idempotent_not_retried,
}
use solace_broker_mcp.Retry.Bounds.{check_retry-check_response}

-- A POST or PATCH that is not marked safe to repeat is never sent again, whatever its attempts
-- gave.
pub write_no-retry :
    (hooks : Hooks) (st : RetryState) (attempts : List Attempt)
    → is_write st ≡ true
    → retries hooks st attempts ≡ 0
unfolding retries check_retry check_write
write_no-retry hooks st [] w = refl
write_no-retry hooks st (a ∷ rest) w = ground arith

check_other-unsafe :
    (st : RetryState) (code : ℕ) → st.retry_unsafe ≡ true → (check_other st code).retry ≡ false
unfolding check_other retryable_status
check_other-unsafe st code u = ground arith

unsafe_status :
    (hooks : Hooks) (st : RetryState) (a : Attempt) (o : Option ℕ)
    → st.retry_unsafe ≡ true
    → (check_status hooks st a o).retry ≡ true
    → (o ≡ some 401) × (st.auth401_retried ≡ false) × ((hooks.handle_auth_failure a).retry ≡ true)
unfolding check_status check_response check_401 first_401
unsafe_status hooks st a none u h = absurd (cc h)
unsafe_status hooks st a (some code) u h = ground (
  arith,
  check_other-unsafe st code u,
  check_other-unsafe (record st { auth_recovered = true }) code u,
)

-- A request declared non-idempotent is sent again for one reason only: the first 401, in an
-- attempt that did not fail in transport, if the authenticator says that it can recover.
pub unsafe_retry :
    (hooks : Hooks) (st : RetryState) (a : Attempt)
    → st.retry_unsafe ≡ true
    → (check_retry hooks st a).retry ≡ true
    → (a.status ≡ some 401)
      × (st.auth401_retried ≡ false)
      × ((hooks.handle_auth_failure a).retry ≡ true)
      × (a.failed ≡ false)
unfolding check_retry check_write check_transport
unsafe_retry hooks st a u h = ground (arith, unsafe_status hooks st a a.status u)

check_response-unsafe :
    (hooks : Hooks) (st : RetryState) (a : Attempt) (code : ℕ)
    → st.retry_unsafe ≡ true
    → retryable_status code ≡ true
    → ((check_response hooks st a code).retry ≡ false)
      × ((check_response hooks st a code).error ≡ some non_idempotent_not_retried)
unfolding check_response check_other retryable_status
check_response-unsafe hooks st a code u r = ground arith

-- The caller of a request declared non-idempotent gets an error of its own, and no retry, for
-- every response that could have been retried (429 and any 5xx), whatever the method.
pub unsafe_marked :
    (hooks : Hooks) (st : RetryState) (a : Attempt) (code : ℕ)
    → st.retry_unsafe ≡ true
    → a.ctx_done ≡ false
    → a.failed ≡ false
    → a.status ≡ some code
    → retryable_status code ≡ true
    → ((check_retry hooks st a).retry ≡ false)
      × ((check_retry hooks st a).error ≡ some non_idempotent_not_retried)
unfolding check_retry check_write retryable_response
unsafe_marked hooks st a code u c f s r = elim (Bool-cases (is_write st)) [
  | inl w ↦ ground (arith, r)
  | inr w ↦
      rw (check_retry-check_response hooks st a code c w f s)
        (check_response-unsafe hooks st a code u r)
]
