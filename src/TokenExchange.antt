-- ===== src/TokenExchange.antt =====
-- The guards around the exchange of tokens with an identity provider: the Retry-After gate of
-- internal/tokenexchange/retry_after_gate.go and what the circuit breaker is told of an outcome,
-- internal/tokenexchange/circuitbreaker.go. Times are nanoseconds; the breaker itself, the library
-- gobreaker, is not in the repository.
pub mod Gate
pub mod Breaker
pub mod Response
pub mod Cache
pub mod Exchange
pub mod Flow
pub mod Lifetimes
mod Tests
use solace_broker_mcp.Common.{
  ℕ, zero, suc, ◌+◌, ◌-◌, ◌%◌, String, List, [], ◌∷◌, Bool, true, false, Option, none, some, ltb,
  leb, ◌==◌, if◌then◌else◌, ◌&&◌, ◌||◌, not,
}

pub data FailureClass : Type 0 where
  class_none network upstream5xx rate_limited body_read config : FailureClass

-- What `parseRetryAfter` gave: a delay if it could be read.
pub record RetryAfter : Type 0 where
  pub ok : Bool
  pub delay : ℕ

pub record ExchangeError : Type 0 where
  pub retries_exhausted : Bool
  pub failure_class : FailureClass
  pub retry_after : Option RetryAfter

-- An error by what `errors.Is` and `errors.As` find in its chain.
pub data Failure : Type 0 where
  canceled deadline_exceeded request_build missing_subject other : Failure
  exchange : ExchangeError → Failure

abbrev pub default_max_honored_retry_after : ℕ
default_max_honored_retry_after = 60000000000

-- `gatedUntil` in nanoseconds, 0 being no gate, and the operator's cap, 0 being the default's.
pub record Exchanger : Type 0 where
  pub gated_until : ℕ
  pub max_honored_retry_after : ℕ

pub gate_check : Exchanger → ℕ → Bool
gate_check e now = ltb 0 e.gated_until && ltb now e.gated_until

pub clamp_retry_after : Exchanger → ℕ → ℕ × Bool
clamp_retry_after e delay =
    let ceiling =
      if leb e.max_honored_retry_after 0
      then default_max_honored_retry_after
      else e.max_honored_retry_after in
    if ltb ceiling delay then (ceiling, true) else (delay, false)

-- One round of the loop of `raiseGate` for the target `until`: `cur` is what the load read, and
-- the state is the one that the compare-and-swap meets. `none` is another round.
pub raise_round : ℕ → ℕ → Exchanger → Option (Exchanger × Bool)
raise_round until cur e =
    if leb until cur
    then some (e, false)
    else if e.gated_until == cur
    then some (record e { gated_until = until }, true)
    else none

-- The rounds of one call: each with the value that was loaded before other calls ran, and the gate
-- that they left for the swap to meet.
pub record Round : Type 0 where
  pub loaded : ℕ
  pub met : ℕ

pub raise_loop : ℕ → List Round → Exchanger → Option (Exchanger × Bool)
raise_loop until [] e = none
raise_loop until (r ∷ rounds) e =
    elim (raise_round until r.loaded (record e { gated_until = r.met })) [
      | some answer ↦ some answer
      | none ↦ raise_loop until rounds e
    ]

-- `raiseGate` when no other call runs in between.
pub raise_gate : Exchanger → ℕ → ℕ → Exchanger × Bool
raise_gate e now delay =
    if leb delay 0 then (e, false) else elim (raise_round (now + delay) e.gated_until e) [
      | none ↦ (e, false)
      | some answer ↦ answer
    ]

pub raise_on_rate_limit : Exchanger → ℕ → ExchangeError → Exchanger
raise_on_rate_limit e now err = elim err.failure_class [
  | rate_limited ↦ elim err.retry_after [
    | none ↦ e
    | some r ↦ if not r.ok then e else (raise_gate e now (clamp_retry_after e r.delay).0).0
  ]
  | _ ↦ e
]

-- `raiseGateOnExhaustedRateLimit`.
pub raise_gate_on_exhausted_rate_limit : Exchanger → ℕ → Failure → Exchanger
raise_gate_on_exhausted_rate_limit e now (exchange err) =
    if not err.retries_exhausted then e else raise_on_rate_limit e now err
raise_gate_on_exhausted_rate_limit e now canceled = e
raise_gate_on_exhausted_rate_limit e now deadline_exceeded = e
raise_gate_on_exhausted_rate_limit e now request_build = e
raise_gate_on_exhausted_rate_limit e now missing_subject = e
raise_gate_on_exhausted_rate_limit e now other = e

pub failure_class_of : Failure → FailureClass
failure_class_of (exchange err) = err.failure_class
failure_class_of canceled = class_none
failure_class_of deadline_exceeded = class_none
failure_class_of request_build = class_none
failure_class_of missing_subject = class_none
failure_class_of other = class_none

pub class_excluded : FailureClass → Bool
class_excluded rate_limited = true
class_excluded config = true
class_excluded class_none = false
class_excluded network = false
class_excluded upstream5xx = false
class_excluded body_read = false

pub class_failure : FailureClass → Bool
class_failure network = true
class_failure upstream5xx = true
class_failure body_read = true
class_failure class_none = false
class_failure rate_limited = false
class_failure config = false

pub is_breaker_excluded : Option Failure → Bool
is_breaker_excluded none = false
is_breaker_excluded (some canceled) = true
is_breaker_excluded (some deadline_exceeded) = true
is_breaker_excluded (some request_build) = true
is_breaker_excluded (some missing_subject) = true
is_breaker_excluded (some other) = class_excluded (failure_class_of other)
is_breaker_excluded (some (exchange err)) = class_excluded (failure_class_of (exchange err))

pub is_breaker_failure : Option Failure → Bool
is_breaker_failure none = false
is_breaker_failure (some f) = class_failure (failure_class_of f)

pub is_breaker_success : Option Failure → Bool
is_breaker_success err = not (is_breaker_failure err)

-- The closure of `newCountingIsBreakerSuccess` on the counter `consecutiveFailures`, 32 bits wide.
pub counting_is_breaker_success : ℕ → Option Failure → ℕ × Bool
counting_is_breaker_success n err =
    let ok = is_breaker_success err in (if ok then 0 else (n + 1) % 4294967296, ok)

-- `rate_reached failures evaluated` is the comparison of floats `failureRate >= threshold`.
pub record BreakerConfig : Type 0 where
  pub consecutive_failure_threshold : ℕ
  pub minimum_requests : ℕ
  pub rate_reached : ℕ → ℕ → Bool

pub record Counts : Type 0 where
  pub total_successes : ℕ
  pub total_failures : ℕ

-- The closure of `newReadyToTrip`.
pub ready_to_trip : BreakerConfig → ℕ → Counts → Bool
ready_to_trip cfg consecutive counts =
    let evaluated = (counts.total_successes + counts.total_failures) % 4294967296 in
    if ltb 0 cfg.consecutive_failure_threshold && leb cfg.consecutive_failure_threshold consecutive
    then true
    else if ltb evaluated cfg.minimum_requests
    then false
    else cfg.rate_reached counts.total_failures evaluated

-- What gobreaker does with the outcomes in a row: the excluded ones are not counted.
pub consecutive_failures : ℕ → List (Option Failure) → ℕ
consecutive_failures n [] = n
consecutive_failures n (err ∷ rest) =
    let skipped = consecutive_failures n rest in
    let counted = consecutive_failures (counting_is_breaker_success n err).0 rest in
    if is_breaker_excluded err then skipped else counted
