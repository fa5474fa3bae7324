-- ===== src/Retry/Bounds.antt =====
-- How often `checkRetry` lets one request be sent again.
use solace_broker_mcp.Common.{
  ℕ, ◌+◌, ◌-◌, ◌≤◌, ◌≡◌, List, [], ◌∷◌, true, false, Option, none, some, if◌then◌else◌, arith,
  if_cases, ap, refl, ◌==◌, inl, inr, ◌⊎◌,
}
use solace_broker_mcp.Retry.{
  RetryState, Attempt, Hooks, Decision, check_retry, check_write, check_transport, check_401,
  first_401, check_other, check_response, check_status, prepare_retry, is_write, retries,
  max_transient_retries,
}

-- The retries that the state still allows for responses of the broker.
unfoldable pub budget : RetryState → ℕ
budget st =
    (max_transient_retries - st.transient_retried)
    + (if st.auth401_retried then 0 else 1)
    + (if st.other5xx_retried then 0 else 1)

pub transport_failures : List Attempt → ℕ
transport_failures [] = 0
transport_failures (a ∷ rest) = (if a.failed then 1 else 0) + transport_failures rest

-- A decision that retries takes from the budget.
abbrev pub Paid : ℕ → Decision → Type 0
Paid n d = (d.retry ≡ false) ⊎ (budget d.state + 1 ≤ n)

check_401-Paid :
    (hooks : Hooks) (st : RetryState) (a : Attempt) → Paid (budget st) (check_401 hooks st a)
unfolding check_401 first_401 budget
check_401-Paid hooks st a = ground arith

check_other-Paid : (st : RetryState) (code : ℕ) → Paid (budget st) (check_other st code)
unfolding check_other budget
check_other-Paid st code = ground arith

check_response-Paid :
    (hooks : Hooks) (st : RetryState) (a : Attempt) (code : ℕ)
    → Paid (budget st) (check_response hooks st a code)
unfolding check_response budget
check_response-Paid hooks st a code =
    if_cases (Paid (budget st)) (code == 401) _ _ (λ _. check_401-Paid hooks st a)
      (λ _.
        if_cases (λ st'. Paid (budget st) (check_other st' code)) st.auth401_retried _ _
          (λ _. check_other-Paid (record st { auth_recovered = true }) code)
          (λ _. check_other-Paid st code))

status_cases :
    (hooks : Hooks) (st : RetryState) (a : Attempt) (o : Option ℕ)
    → Paid (budget st) (check_status hooks st a o)
unfolding check_status
status_cases hooks st a none = inl refl
status_cases hooks st a (some code) = check_response-Paid hooks st a code

-- One decision: a retry costs one of the budget, or answers a failure in transport.
pub check_retry-Paid :
    (hooks : Hooks) (st : RetryState) (a : Attempt)
    → Paid (budget st + (if a.failed then 1 else 0)) (check_retry hooks st a)
unfolding check_retry check_write check_transport
check_retry-Paid hooks st a =
    let n : ℕ = budget st + (if a.failed then 1 else 0) in
    if_cases (Paid n) a.ctx_done _ _ (λ _. inl refl)
      (λ _.
        if_cases (Paid n) (is_write st) _ _ (λ _. inl (ground arith))
          (λ _.
            if_cases (Paid n) a.failed _ _ (λ e. inr (ground arith))
              (λ e. elim (status_cases hooks st a a.status) [
                | inl r ↦ inl r
                | inr r ↦ inr (omega (arith, r))
              ])))

budget-prepare_retry : (st : RetryState) → budget (prepare_retry st).0 ≡ budget st
unfolding budget prepare_retry
budget-prepare_retry st = ground arith

-- From any state on, the policy asks for no more retries than the budget of the state and the
-- failures in transport allow.
pub retries_bounded :
    (hooks : Hooks) (st : RetryState) (attempts : List Attempt)
    → retries hooks st attempts ≤ budget st + transport_failures attempts
unfolding retries transport_failures
retries_bounded hooks st [] = omega arith
retries_bounded hooks st (a ∷ rest) =
    let d : Decision = check_retry hooks st a in
    let ih = retries_bounded hooks (prepare_retry d.state).0 rest in
    if_cases (λ n. n ≤ budget st + ((if a.failed then 1 else 0) + transport_failures rest)) d.retry
      _ _
      (λ yes_retry. elim (check_retry-Paid hooks st a) [
        | inl r ↦ absurd (cc (r, yes_retry))
        | inr r ↦ omega (arith, r, ih, budget-prepare_retry d.state)
      ])
      (λ _. omega arith)

-- What is left of `checkRetry` once its early returns do not apply.
pub check_retry-check_response :
    (hooks : Hooks) (st : RetryState) (a : Attempt) (code : ℕ)
    → a.ctx_done ≡ false
    → is_write st ≡ false
    → a.failed ≡ false
    → a.status ≡ some code
    → check_retry hooks st a ≡ check_response hooks st a code
unfolding check_retry check_status
check_retry-check_response hooks st a code x w f s =
    let P : Decision → Type 0 = λ d. d ≡ check_response hooks st a code in
    if_cases P a.ctx_done _ _ (λ e. absurd (cc (e, x)))
      (λ _.
        if_cases P (is_write st) _ _ (λ e. absurd (cc (e, w)))
          (λ _.
            if_cases P a.failed _ _ (λ e. absurd (cc (e, f)))
              (λ _. ap (check_status hooks st a) s)))
