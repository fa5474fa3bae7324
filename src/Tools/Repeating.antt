-- ===== src/Tools/Repeating.antt =====
-- isRetryable of internal/tools/errors.go on what Do of internal/semp/resilience/sender.go returns: what
-- an agent is told that it may send again.
use solace_broker_mcp.Common.{
  ℕ, arith, Bool, Option, none, some, String, true, false, ◌&&◌, ◌||◌, ◌≡◌, refl, inl, inr, ◌⊎◌,
}
use solace_broker_mcp.Scheduler.State.{Stage}
use solace_broker_mcp.Retry.{RetryState, is_write}
use solace_broker_mcp.Sender.{
  SendError, busy, deadline_exceeded, canceled, exhausted, failed_after, other_error, mark_error,
  Cause, exchange_transport, other_cause, RetriesExhausted,
}
use solace_broker_mcp.Tools.{
  ToolError, exchange_failed, broker_busy, retries_failed, internal_error, is_retryable,
}

-- The case of the tool's error switch that an error of the sender falls in, given how long a caller of a
-- busy broker is told to wait and the text that could be read from a body.
unfoldable pub has_exchange_transport : Option Cause → Bool
has_exchange_transport (some (exchange_transport message)) = true
has_exchange_transport (some (other_cause message)) = false
has_exchange_transport none = false

unfoldable pub of_cause : Cause → ToolError
of_cause (exchange_transport message) = exchange_failed true message
of_cause (other_cause message) = internal_error

unfoldable pub of_send : ℕ → String → SendError → ToolError
of_send wait detail (busy at) = broker_busy wait
of_send wait detail (exhausted e) = retries_failed (record {
  status_code = e.status_code;
  attempts = e.attempts;
  non_idempotent = e.non_idempotent;
  detail = detail;
  exchange_transport = has_exchange_transport e.cause;
})
of_send wait detail deadline_exceeded = internal_error
of_send wait detail canceled = internal_error
of_send wait detail (failed_after tries) = internal_error
of_send wait detail (other_error cause) = of_cause cause

-- The error comes of a failure in the transport of the token exchange.
abbrev pub FromExchange : SendError → Type 0
FromExchange (exhausted e) = (message : String) × (e.cause ≡ some (exchange_transport message))
FromExchange (other_error cause) = (message : String) × (cause ≡ exchange_transport message)
FromExchange _ = ⊥

-- The request may not be repeated: it was declared unsafe, or is a write that went out.
abbrev pub unsafe_to_repeat : RetryState → Bool
unsafe_to_repeat st = st.retry_unsafe || (is_write st && st.request_written)

exhausted_retryable :
    (wait : ℕ) (detail : String) (st : RetryState) (e : RetriesExhausted) (cause : Option Cause)
    → e.cause ≡ cause
    → is_retryable (of_send wait detail (mark_error st (exhausted e))) ≡ true
    → FromExchange (exhausted e) ⊎ (unsafe_to_repeat st ≡ false)
unfolding of_send is_retryable mark_error has_exchange_transport
exhausted_retryable wait detail st e (some (exchange_transport m)) c h = inl (m, c)
exhausted_retryable wait detail st e (some (other_cause m)) c h = inr (ground (arith, c))
exhausted_retryable wait detail st e none c h = inr (ground (arith, c))

no_repeat : (m : String) → is_retryable (of_cause (other_cause m)) ≡ true → ⊥
unfolding is_retryable of_cause
no_repeat m h = cc

-- Of the errors that the sender returns, the agent is told to send again only when the broker was too
-- busy to be sent anything, when a failure in the transport of the token exchange is in the error's
-- chain, or when the request was neither declared unsafe nor a write that had gone out.
pub retryable_unsent :
    (wait : ℕ) (detail : String) (st : RetryState) (e : SendError)
    → is_retryable (of_send wait detail (mark_error st e)) ≡ true
    → ((at : Stage) × (e ≡ busy at)) ⊎ FromExchange e ⊎ (unsafe_to_repeat st ≡ false)
unfolding of_send is_retryable mark_error
retryable_unsent wait detail st (busy at) h = inl (at, refl)
retryable_unsent wait detail st deadline_exceeded h = absurd cc
retryable_unsent wait detail st canceled h = absurd cc
retryable_unsent wait detail st (failed_after tries) h = absurd cc
retryable_unsent wait detail st (other_error (exchange_transport m)) h = inr (inl (m, refl))
retryable_unsent wait detail st (other_error (other_cause m)) h =
    absurd (let q : is_retryable (of_cause (other_cause m)) ≡ true = h in no_repeat m q)
retryable_unsent wait detail st (exhausted e) h =
    inr (exhausted_retryable wait detail st e e.cause refl h)
