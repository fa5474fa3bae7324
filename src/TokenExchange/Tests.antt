-- ===== src/TokenExchange/Tests.antt =====
-- Runs of the gate and the breaker, and an instance of each of their theorems.
use solace_broker_mcp.Common.{◌≡◌, refl, List, [], ◌∷◌, true, false, Option, none, some, ltb, arith}
use solace_broker_mcp.TokenExchange.{
  Exchanger, ExchangeError, RetryAfter, Failure, exchange, canceled, class_none, upstream5xx,
  rate_limited, gate_check, clamp_retry_after, Round, raise_loop, raise_round, raise_gate,
  raise_on_rate_limit, raise_gate_on_exhausted_rate_limit, BreakerConfig, Counts, ready_to_trip,
  consecutive_failures, is_breaker_excluded, is_breaker_failure, is_breaker_success,
  failure_class_of, class_excluded, class_failure, counting_is_breaker_success,
}
use solace_broker_mcp.TokenExchange.Gate.{Extended, FirstEnding, later, raise_loop-later}
use solace_broker_mcp.TokenExchange.Breaker.{failures, no_success, outage-trips}

abbrev open_gate : Exchanger
open_gate = record { gated_until = 0; max_honored_retry_after = 100 }

abbrev asked : RetryAfter
asked = record { ok = true; delay = 500 }

abbrev throttled : ExchangeError
throttled = record {
  retries_exhausted = true;
  failure_class = rate_limited;
  retry_after = some asked;
}

abbrev throttled_once : ExchangeError
throttled_once = record {
  retries_exhausted = false;
  failure_class = rate_limited;
  retry_after = some asked;
}

abbrev down : ExchangeError
down = record { retries_exhausted = true; failure_class = upstream5xx; retry_after = none }

abbrev rejected : ExchangeError
rejected = record { retries_exhausted = false; failure_class = class_none; retry_after = none }

gate_test :
    ((raise_gate_on_exhausted_rate_limit open_gate 1000 (exchange throttled)).gated_until ≡ 1100)
    × (gate_check (raise_gate_on_exhausted_rate_limit open_gate 1000 (exchange throttled)) 1099
        ≡ true)
    × (gate_check (raise_gate_on_exhausted_rate_limit open_gate 1000 (exchange throttled)) 1100
        ≡ false)
    × ((raise_gate (record open_gate { gated_until = 2000 }) 1000 50).1 ≡ false)
unfolding raise_gate_on_exhausted_rate_limit raise_on_rate_limit raise_gate raise_round
    clamp_retry_after gate_check
gate_test = (refl, refl, refl, refl)

-- A swap that meets another value, and a second round.
abbrev two_rounds : List Round
two_rounds = record { loaded = 0; met = 30 } ∷ record { loaded = 30; met = 30 } ∷ []

abbrev raised_to : Exchanger
raised_to = record { gated_until = 90; max_honored_retry_after = 100 }

loop_fact : raise_loop 90 two_rounds open_gate ≡ some (raised_to, true)
unfolding raise_loop raise_round
loop_fact = refl

two_rounds-Extended : Extended two_rounds
unfolding Extended
two_rounds-Extended = (omega arith, (omega arith, tt))

raise_loop-later_example :
    (r : Round) × FirstEnding 90 two_rounds r
    × (raised_to.gated_until ≡ later r.met 90)
    × (true ≡ ltb r.met 90)
raise_loop-later_example =
    raise_loop-later 90 two_rounds open_gate raised_to true two_rounds-Extended loop_fact

-- Two failures with a cancelled call between them.
abbrev outage : List (Option Failure)
outage = some (exchange down) ∷ some canceled ∷ some (exchange down) ∷ []

abbrev two_in_a_row : BreakerConfig
two_in_a_row = record {
  consecutive_failure_threshold = 2;
  minimum_requests = 10;
  rate_reached = λ _ _. false;
}

abbrev quiet : Counts
quiet = record { total_successes = 0; total_failures = 0 }

outage_facts :
    (no_success outage ≡ true)
    × (failures outage ≡ 2)
    × (consecutive_failures 0 (none ∷ some (exchange down) ∷ some (exchange rejected) ∷ outage) ≡ 2)
unfolding no_success failures is_breaker_excluded is_breaker_failure failure_class_of class_excluded
    class_failure consecutive_failures counting_is_breaker_success is_breaker_success
outage_facts = (refl, refl, refl)

outage-trips_example : ready_to_trip two_in_a_row (consecutive_failures 0 outage) quiet ≡ true
outage-trips_example =
    outage-trips two_in_a_row outage quiet outage_facts.0 (omega (arith, outage_facts.1))
      (omega arith) (omega (arith, outage_facts.1))
