-- ===== src/TokenExchange/Breaker.antt =====
-- What the circuit breaker counts, and when it trips.
use solace_broker_mcp.Common.{
  ℕ, ◌+◌, ◌≡◌, ◌≤◌, ◌<◌, refl, List, [], ◌∷◌, Bool, true, false, Option, none, some, if◌then◌else◌,
  arith, inl, inr, Bool-cases, ◌&&◌, ◌||◌, ◌%◌,
}
use native.Mathlib.Nat.{mod-eq_of_lt}
use solace_broker_mcp.TokenExchange.{
  ExchangeError, Failure, exchange, canceled, deadline_exceeded, request_build, missing_subject,
  other, FailureClass, class_none, network, upstream5xx, rate_limited, body_read, config,
  failure_class_of, class_excluded, class_failure, is_breaker_excluded, is_breaker_failure,
  is_breaker_success, counting_is_breaker_success, BreakerConfig, Counts, ready_to_trip,
  consecutive_failures,
}

classes-disjoint : (c : FailureClass) → (class_excluded c && class_failure c) ≡ false
unfolding class_excluded class_failure
classes-disjoint class_none = refl
classes-disjoint network = refl
classes-disjoint upstream5xx = refl
classes-disjoint rate_limited = refl
classes-disjoint body_read = refl
classes-disjoint config = refl

-- No outcome that is left out of the count is a failure of the provider.
pub excluded-no_failure :
    (err : Option Failure) → (is_breaker_excluded err && is_breaker_failure err) ≡ false
unfolding is_breaker_excluded is_breaker_failure failure_class_of class_failure class_excluded
excluded-no_failure none = refl
excluded-no_failure (some canceled) = classes-disjoint class_none
excluded-no_failure (some deadline_exceeded) = classes-disjoint class_none
excluded-no_failure (some request_build) = classes-disjoint class_none
excluded-no_failure (some missing_subject) = classes-disjoint class_none
excluded-no_failure (some other) = classes-disjoint class_none
excluded-no_failure (some (exchange err)) = classes-disjoint err.failure_class

-- The failures of the provider among some outcomes, and whether there is no success among them.
unfoldable pub failures : List (Option Failure) → ℕ
failures [] = 0
failures (err ∷ rest) = (if is_breaker_failure err then 1 else 0) + failures rest

unfoldable pub no_success : List (Option Failure) → Bool
no_success [] = true
no_success (err ∷ rest) = (is_breaker_excluded err || is_breaker_failure err) && no_success rest

consecutive-failures :
    (n : ℕ) (errs : List (Option Failure))
    → no_success errs ≡ true
    → n + failures errs < 4294967296
    → consecutive_failures n errs ≡ n + failures errs
unfolding consecutive_failures failures no_success counting_is_breaker_success is_breaker_success
consecutive-failures n [] h lt = omega arith
consecutive-failures n (err ∷ rest) h lt = elim (Bool-cases (is_breaker_excluded err)) [
  | inl e ↦ ground (arith, consecutive-failures n rest, excluded-no_failure err)
  | inr e ↦
      let f : is_breaker_failure err ≡ true = ground arith in
      let small : (n + 1) % 4294967296 ≡ n + 1 = mod-eq_of_lt (ground arith) in
      ground (arith, small, consecutive-failures (n + 1) rest)
]

-- An outage trips the breaker, however sparse: if the outcomes hold as many failures of the
-- provider as a threshold of at least one (and fewer than 2^32), and are otherwise left out of
-- the count, the breaker is ready to trip at any counts of its window.
pub outage-trips :
    (cfg : BreakerConfig) (errs : List (Option Failure)) (counts : Counts)
    → no_success errs ≡ true
    → failures errs < 4294967296
    → 1 ≤ cfg.consecutive_failure_threshold
    → cfg.consecutive_failure_threshold ≤ failures errs
    → ready_to_trip cfg (consecutive_failures 0 errs) counts ≡ true
unfolding ready_to_trip
outage-trips cfg errs counts h lt one le =
    ground (arith, consecutive-failures 0 errs h (omega arith))

success-resets :
    (n : ℕ) (err : Option Failure) (errs : List (Option Failure))
    → is_breaker_excluded err ≡ false
    → is_breaker_failure err ≡ false
    → consecutive_failures n (err ∷ errs) ≡ consecutive_failures 0 errs
unfolding consecutive_failures counting_is_breaker_success is_breaker_success
success-resets n err errs x f = rw (x, f) refl

-- A rejection by the provider ends a row of failures, as a success does: the count goes on as
-- from zero.
pub answer-resets :
    (n : ℕ) (err : ExchangeError) (errs : List (Option Failure))
    → err.failure_class ≡ class_none
    → (consecutive_failures n (some (exchange err) ∷ errs) ≡ consecutive_failures 0 errs)
      × (consecutive_failures n (none ∷ errs) ≡ consecutive_failures 0 errs)
unfolding is_breaker_excluded is_breaker_failure failure_class_of class_excluded class_failure
answer-resets n err errs c = (
  success-resets n (some (exchange err)) errs (rw c refl) (rw c refl),
  success-resets n none errs refl refl,
)
