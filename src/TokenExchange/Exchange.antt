-- ===== src/TokenExchange/Exchange.antt =====
-- internal/tokenexchange/exchange.go: a call of `Exchange`, from the cache over the gate and the circuit
-- breaker to the identity provider. What the provider answers, what the breaker decides and when the
-- caller's context ends are arguments.
use solace_broker_mcp.Common.{
  ℕ, zero, suc, ◌+◌, String, Bool, true, false, Option, none, some, if◌then◌else◌,
}
use solace_broker_mcp.Common.Assoc.{Assoc, find}
use solace_broker_mcp.Common.Result.{Result, ok, err}
use solace_broker_mcp.TokenExchange.{
  FailureClass, class_none, network, Exchanger, Failure, gate_check,
  raise_gate_on_exhausted_rate_limit, canceled, deadline_exceeded, exchange, other,
}
use solace_broker_mcp.TokenExchange.Response.{
  Sentinel, transport, retries_exhausted, exchange_rate_limited, circuit_open, request_build,
  ExchangeError, Token, IdpResponse, Settings, parse_idp_response, transport_error, ParsedSuccess,
}
use solace_broker_mcp.TokenExchange.Cache.{cache_get, cache_put, cache_delete}

-- An error of a call, by what `errors.Is` and `errors.As` find in its chain.
pub data CallError : Type 0 where
  exchange_error : ExchangeError → CallError
  context_canceled context_deadline : CallError
  open_state too_many_requests : CallError
  caller_abandoned : CallError

-- What the HTTP client gives: a response, or an error of the transport by its class.
pub data Sent : Type 0 where
  build_failed : Sent
  responded : IdpResponse → Sent
  transport_failed : FailureClass → Sent
  context_ended : (deadline : Bool) → Sent

unfoldable pub as_call : Result ExchangeError ParsedSuccess → Result CallError ParsedSuccess
as_call (ok p) = ok p
as_call (err e) = err (exchange_error e)

unfoldable pub do_exchange :
    (equal_fold : String → String → Bool) → Settings → Sent → ℕ → Result CallError ParsedSuccess
do_exchange equal_fold e build_failed now =
    err (exchange_error (record (transport_error 0 class_none none) { sentinel = request_build }))
do_exchange equal_fold e (transport_failed class) now =
    err (exchange_error (transport_error 0 class none))
do_exchange equal_fold e (context_ended deadline) now =
    err (if deadline then context_deadline else context_canceled)
do_exchange equal_fold e (responded resp) now = as_call (parse_idp_response equal_fold e resp now)

abbrev pub is_transport : Sentinel → Bool
is_transport transport = true
is_transport _ = false

unfoldable pub classify_retry_outcome : ℕ → CallError → CallError
classify_retry_outcome zero e = e
classify_retry_outcome (suc attempts) (exchange_error e) =
    if is_transport e.sentinel
    then exchange_error (record e { sentinel = retries_exhausted })
    else exchange_error e
classify_retry_outcome (suc attempts) context_deadline =
    exchange_error (record (transport_error 0 network none) { sentinel = retries_exhausted })
classify_retry_outcome (suc attempts) e = e

abbrev is_exhausted : Sentinel → Bool
is_exhausted retries_exhausted = true
is_exhausted _ = false

-- The error as `raiseGateOnExhaustedRateLimit` sees it.
unfoldable pub as_failure : CallError → Failure
as_failure (exchange_error e) = exchange (record {
  retries_exhausted = is_exhausted e.sentinel;
  failure_class = e.failure_class;
  retry_after = e.retry_after;
})
as_failure context_canceled = canceled
as_failure context_deadline = deadline_exceeded
as_failure _ = other

-- What outlives a call: the gate, what otter holds, and how many requests the provider has had: the HTTP
-- client repeats a request, and counts its attempts.
pub record State : Type 0 where
  pub gate : Exchanger
  pub held : Assoc Token
  pub requests : ℕ

-- What a call meets: the provider, the attempts that the HTTP client makes of it,
-- and what the breaker says instead of running it.
pub record Provider : Type 0 where
  pub sent : Sent
  pub attempts : ℕ
  pub max_ttl : ℕ
  pub refusal : Option CallError

unfoldable pub finish_exchange :
    State → ℕ → String → Provider → Result CallError ParsedSuccess → State × Result CallError Token
finish_exchange s now key p (ok parsed) =
    (record s { held = (cache_put now p.max_ttl key parsed.token s.held).0 }, ok parsed.token)
finish_exchange s now key p (err e) =
    let classified = classify_retry_outcome p.attempts e in
    (
      record s { gate = raise_gate_on_exhausted_rate_limit s.gate now (as_failure classified) },
      err classified,
    )

-- Whether the caller's context has ended: on entry, after the lookup, and when the result is there.
pub record Caller : Type 0 where
  pub gone_at_entry : Bool
  pub gone_at_hit : Bool
  pub gone_at_result : Bool

unfoldable pub map_circuit_open : CallError → CallError
map_circuit_open open_state =
    exchange_error (record (transport_error 0 class_none none) { sentinel = circuit_open })
map_circuit_open too_many_requests =
    exchange_error (record (transport_error 0 class_none none) { sentinel = circuit_open })
map_circuit_open e = e

unfoldable pub map_error : Result CallError Token → Result CallError Token
map_error (ok t) = ok t
map_error (err e) = err (map_circuit_open e)

module _ (equal_fold : String → String → Bool) (settings : Settings) where
  unfoldable pub run_exchange_once : State → ℕ → String → Provider → State × Result CallError Token
  run_exchange_once s now key p =
      finish_exchange (record s { requests = s.requests + p.attempts }) now key p
        (do_exchange equal_fold settings p.sent now)

  -- `breaker.Execute`: the breaker refuses, or lets the exchange run.
  unfoldable pub if_admitted :
      State → ℕ → String → Provider → Option CallError → State × Result CallError Token
  if_admitted s now key p (some e) = (s, err e)
  if_admitted s now key p none = run_exchange_once s now key p

  unfoldable pub run_protected_exchange :
      State → ℕ → String → Provider → State × Result CallError Token
  run_protected_exchange s now key p =
      if gate_check s.gate now
      then (
        s,
        err (
            exchange_error
              (record (transport_error 0 class_none none) { sentinel = exchange_rate_limited })),
      )
      else if_admitted s now key p p.refusal

  -- The rest of `Exchange` when the cache has no token: this caller's own flight.
  unfoldable pub exchange_missed :
      Caller → State → ℕ → String → Provider → State × Result CallError Token
  exchange_missed c s now key p =
      let (s', r) = run_protected_exchange s now key p in
      if c.gone_at_result then (s', err caller_abandoned) else (s', map_error r)

  unfoldable pub on_lookup :
      Caller → State → ℕ → String → Provider → Option Token → State × Result CallError Token
  on_lookup c s now key p (some t) = (s, if c.gone_at_hit then err caller_abandoned else ok t)
  on_lookup c s now key p none = exchange_missed c s now key p

  -- `Exchange` of a caller that runs the exchange itself.
  unfoldable pub exchange_token :
      Caller → State → ℕ → String → Provider → State × Result CallError Token
  exchange_token c s now key p =
      if c.gone_at_entry
      then (s, err caller_abandoned)
      else on_lookup c s now key p (cache_get now (find key s.held))

pub data Outcome : Type 0 where
  success cancelled error : Outcome

-- `exchangeOutcome`, the label on the span.
unfoldable pub exchange_outcome : Result CallError Token → Outcome
exchange_outcome (ok t) = success
exchange_outcome (err caller_abandoned) = cancelled
exchange_outcome (err e) = error

-- `Invalidate`.
unfoldable pub invalidate : State → String → State
invalidate s key = record s { held = cache_delete key s.held }
