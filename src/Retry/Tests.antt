-- ===== src/Retry/Tests.antt =====
-- Runs of the retry policy, and an instance of each of its theorems.
use solace_broker_mcp.Common.{
  length, ℕ, ◌≡◌, ◌≤◌, ◌+◌, [], ◌∷◌, true, false, some, none, refl, key_eq,
}
use solace_broker_mcp.Retry.{
  RetryState, Attempt, Hooks, check_retry, check_transport, check_401, first_401, check_other,
  check_response, check_status, prepare_retry, retries, is_write, retryable_status, new_retry_state,
}
use solace_broker_mcp.Retry.Bounds.{transport_failures}
use solace_broker_mcp.Retry.Caps.{
  retried_after, count_of, answered, busy_code, server_code, login_code, fresh_retries,
}
use solace_broker_mcp.Retry.Gates.{write_no-retry, unsafe_retry}

-- Hooks that answer every failure with a retry.
abbrev eager : Hooks
eager = record {
  default_policy = λ _. (true, none);
  handle_auth_failure = λ _. record { retry = true; re_auth = true };
}

abbrev answer : ℕ → Attempt
answer code = record { ctx_done = false; status = some code; failed = false }

abbrev broken : Attempt
broken = record { ctx_done = false; status = none; failed = true }

abbrev get : RetryState
get = new_retry_state "GET" false false

abbrev post : RetryState
post = new_retry_state "POST" false false

abbrev purge : RetryState
purge = new_retry_state "PUT" false true

retries_test :
    (retries eager get (answer 503 ∷ answer 503 ∷ answer 429 ∷ answer 503 ∷ answer 503 ∷ []) ≡ 3)
    × (retries eager get (answer 500 ∷ answer 502 ∷ answer 503 ∷ []) ≡ 1)
    × (retries eager get (answer 401 ∷ answer 503 ∷ broken ∷ answer 401 ∷ []) ≡ 3)
    × (retries eager get (answer 200 ∷ answer 503 ∷ []) ≡ 0)
unfolding retries check_retry check_transport check_401 first_401 check_other check_response
    check_status prepare_retry is_write retryable_status key_eq
retries_test = (refl, refl, refl, refl)

facts :
    (is_write post ≡ true)
    × ((check_retry eager purge (answer 401)).retry ≡ true)
    × (retryable_status 503 ≡ true)
    × (is_write get ≡ false)
unfolding check_retry check_401 first_401 check_response check_status is_write retryable_status
    key_eq
facts = (refl, refl, refl, refl)

fresh_retries_example :
    let again = retried_after eager get (answer 503 ∷ broken ∷ []) in
    (count_of (answered busy_code) again ≤ 3)
    × (count_of (answered server_code) again ≤ 1)
    × (count_of (answered login_code) again ≤ 1)
    × (length again ≤ 5 + transport_failures (answer 503 ∷ broken ∷ []))
fresh_retries_example = fresh_retries eager "GET" false false (answer 503 ∷ broken ∷ [])

write_no-retry_example : retries eager post (answer 503 ∷ broken ∷ []) ≡ 0
write_no-retry_example = write_no-retry eager post (answer 503 ∷ broken ∷ []) facts.0

unsafe_retry_example :
    ((answer 401).status ≡ some 401)
    × (purge.auth401_retried ≡ false)
    × ((eager.handle_auth_failure (answer 401)).retry ≡ true)
    × ((answer 401).failed ≡ false)
unsafe_retry_example = unsafe_retry eager purge (answer 401) refl facts.1
