-- ===== src/Retry/Caps.antt =====
-- How often `checkRetry` lets one request be sent again for each kind of answer.
use solace_broker_mcp.Common.{
  ℕ, ◌+◌, ◌-◌, ◌≤◌, ◌≡◌, List, [], ◌∷◌, Bool, true, false, Option, none, some, if◌then◌else◌, arith,
  if_cases, refl, subst, ◌==◌, inl, inr, String, ◌⊎◌, leb, not, ◌&&◌, ◌||◌, length, sym,
}
use solace_broker_mcp.Retry.{
  RetryState, Attempt, Hooks, Decision, check_retry, check_write, check_transport, check_401,
  first_401, check_other, check_response, check_status, prepare_retry, is_write, retries,
  new_retry_state, max_transient_retries,
}
use solace_broker_mcp.Retry.Bounds.{budget, transport_failures, retries_bounded}

-- The attempts after which the policy asked for a retry.
unfoldable pub retried_after : Hooks → RetryState → List Attempt → List Attempt
retried_after hooks st [] = []
retried_after hooks st (a ∷ rest) =
    let d = check_retry hooks st a in
    let more = retried_after hooks (prepare_retry d.state).0 rest in
    if d.retry then a ∷ more else []

abbrev pub one_if : Bool → ℕ
one_if b = if b then 1 else 0

unfoldable pub count_of : (Attempt → Bool) → List Attempt → ℕ
count_of sel [] = 0
count_of sel (a ∷ attempts) = one_if (sel a) + count_of sel attempts

-- The kinds of answer, by the status.
abbrev pub busy_code : ℕ → Bool
busy_code code = code == 429 || code == 503

abbrev pub server_code : ℕ → Bool
server_code code = leb 500 code && not (code == 503)

abbrev pub login_code : ℕ → Bool
login_code code = code == 401

abbrev pub of_status : (ℕ → Bool) → Option ℕ → Bool
of_status sel none = false
of_status sel (some code) = sel code

-- An attempt that was answered with a status of a kind.
abbrev pub answered : (ℕ → Bool) → Attempt → Bool
answered sel a = not a.failed && of_status sel a.status

-- What a retry takes from the allowances of a state, for an answer of each kind.
abbrev Spends : RetryState → (busy server login : Bool) → Decision → Type 0
Spends st busy server login d =
    (d.retry ≡ false)
    ⊎ (((max_transient_retries - d.state.transient_retried) + one_if busy
          ≤ max_transient_retries - st.transient_retried)
        × (one_if (not d.state.other5xx_retried) + one_if server ≤ one_if (not st.other5xx_retried))
        × (one_if (not d.state.auth401_retried) + one_if login ≤ one_if (not st.auth401_retried)))

check_401-Spends :
    (hooks : Hooks) (st : RetryState) (a : Attempt)
    → Spends st false false true (check_401 hooks st a)
unfolding check_401 first_401
check_401-Spends hooks st a = ground arith

check_other-Spends :
    (st : RetryState) (code : ℕ)
    → Spends st (busy_code code) (server_code code) false (check_other st code)
unfolding check_other
check_other-Spends st code = ground arith

code_is : (code n : ℕ) → (code == n) ≡ true → code ≡ n
code_is code n h = ground arith

check_response-Spends :
    (hooks : Hooks) (st : RetryState) (a : Attempt) (code : ℕ)
    → Spends st
        (busy_code code)
        (server_code code)
        (login_code code)
        (check_response hooks st a code)
unfolding check_response
check_response-Spends hooks st a code =
    let P : Decision → Type 0 = Spends st (busy_code code) (server_code code) (login_code code) in
    if_cases P (code == 401) _ _
      (λ e.
        subst (λ c. Spends st (busy_code c) (server_code c) (login_code c) (check_401 hooks st a))
          (sym (code_is code 401 e)) (check_401-Spends hooks st a))
      (λ e.
        if_cases (λ st'. P (check_other st' code)) st.auth401_retried _ _
          (λ _.
            subst
              (λ b.
                Spends st (busy_code code) (server_code code) b
                  (check_other (record st { auth_recovered = true }) code))
              (sym e) (check_other-Spends (record st { auth_recovered = true }) code))
          (λ _.
            subst (λ b. Spends st (busy_code code) (server_code code) b (check_other st code))
              (sym e) (check_other-Spends st code)))

check_status-Spends :
    (hooks : Hooks) (st : RetryState) (a : Attempt) (o : Option ℕ)
    → Spends st
        (of_status busy_code o)
        (of_status server_code o)
        (of_status login_code o)
        (check_status hooks st a o)
unfolding check_status
check_status-Spends hooks st a none = inl refl
check_status-Spends hooks st a (some code) = check_response-Spends hooks st a code

-- One decision: a retry takes from the allowance for the answer's kind.
check_retry-Spends :
    (hooks : Hooks) (st : RetryState) (a : Attempt)
    → Spends st
        (answered busy_code a)
        (answered server_code a)
        (answered login_code a)
        (check_retry hooks st a)
unfolding check_retry check_write check_transport
check_retry-Spends hooks st a =
    let P : Decision → Type 0 =
      Spends st (answered busy_code a) (answered server_code a) (answered login_code a) in
    if_cases P a.ctx_done _ _ (λ _. inl refl)
      (λ _.
        if_cases P (is_write st) _ _ (λ _. inl (ground arith))
          (λ _.
            if_cases P a.failed _ _ (λ e. inr (ground arith))
              (λ e.
                subst
                  (λ b.
                    Spends st (not b && of_status busy_code a.status)
                      (not b && of_status server_code a.status)
                      (not b && of_status login_code a.status) (check_status hooks st a a.status))
                  (sym e) (check_status-Spends hooks st a a.status))))

-- The retries for each kind of answer are within what the state allows.
abbrev Capped : RetryState → List Attempt → Type 0
Capped st attempts =
    (count_of (answered busy_code) attempts ≤ max_transient_retries - st.transient_retried)
    × (count_of (answered server_code) attempts ≤ one_if (not st.other5xx_retried))
    × (count_of (answered login_code) attempts ≤ one_if (not st.auth401_retried))

Capped-prepare_retry :
    (st : RetryState) (attempts : List Attempt)
    → Capped (prepare_retry st).0 attempts
    → Capped st attempts
unfolding prepare_retry
Capped-prepare_retry st attempts h = ground (arith, h.0, h.1, h.2)

retried_after-Capped :
    (hooks : Hooks) (st : RetryState) (attempts : List Attempt)
    → Capped st (retried_after hooks st attempts)
unfolding retried_after count_of
retried_after-Capped hooks st [] = (omega arith, omega arith, omega arith)
retried_after-Capped hooks st (a ∷ rest) =
    let d : Decision = check_retry hooks st a in
    let ih =
      Capped-prepare_retry d.state _ (retried_after-Capped hooks (prepare_retry d.state).0 rest) in
    if_cases (Capped st) d.retry _ _
      (λ again. elim (check_retry-Spends hooks st a) [
        | inl r ↦ absurd (cc (r, again))
        | inr r ↦ (omega (arith, r.0, ih.0), omega (arith, r.1, ih.1), omega (arith, r.2, ih.2))
      ])
      (λ _. (omega arith, omega arith, omega arith))

length-retried_after :
    (hooks : Hooks) (st : RetryState) (attempts : List Attempt)
    → length (retried_after hooks st attempts) ≡ retries hooks st attempts
unfolding retried_after retries
length-retried_after hooks st [] = refl
length-retried_after hooks st (a ∷ rest) =
    let d : Decision = check_retry hooks st a in
    let ih = length-retried_after hooks (prepare_retry d.state).0 rest in ground (arith, ih)

-- A new request is sent again at most three times for answers of 429 or 503, once for other answers of
-- 500 or more and once for a 401; and in all at most five times, plus once for each attempt that failed
-- in transport.
pub fresh_retries :
    (hooks : Hooks) (method : String) (safe unsafe : Bool) (attempts : List Attempt)
    → let again = retried_after hooks (new_retry_state method safe unsafe) attempts in
      (count_of (answered busy_code) again ≤ 3)
      × (count_of (answered server_code) again ≤ 1)
      × (count_of (answered login_code) again ≤ 1)
      × (length again ≤ 5 + transport_failures attempts)
unfolding budget
fresh_retries hooks method safe unsafe attempts =
    let st = new_retry_state method safe unsafe in
    let (a, b, c) = retried_after-Capped hooks st attempts in
    (
      a,
      b,
      c,
      omega (arith, retries_bounded hooks st attempts, length-retried_after hooks st attempts),
    )
