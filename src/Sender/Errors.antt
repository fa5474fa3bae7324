-- ===== src/Sender/Errors.antt =====
-- What the caller of `Do`, and the broker's health record, are told of a failure.
use solace_broker_mcp.Common.{
  ℕ, ◌≤◌, ◌≡◌, Bool, Option, none, some, ◌&&◌, ◌||◌, refl, arith, if_cases, take, length,
  length-take,
}
use solace_broker_mcp.Retry.{RetryState, is_write}
use solace_broker_mcp.Sender.{
  exhausted, RetriesExhausted, Cause, Response, error_handler, mark_error, signal_of_error,
  broker_signal_status, error_handler_drain_limit,
}

-- The error that `errorHandler` makes reaches the caller marked as not to be repeated exactly if the
-- request was declared non-idempotent or is a write that went out; its status and number of attempts
-- stand, and no more than the limit of the body is kept.
pub error_handler-marked :
    (st : RetryState) (resp : Response) (cause : Option Cause) (tries : ℕ)
    → (e : RetriesExhausted) × (mark_error st (error_handler (some resp) cause tries) ≡ exhausted e)
      × (e.non_idempotent ≡ (st.retry_unsafe || (is_write st && st.request_written)))
      × (e.status_code ≡ resp.status_code)
      × (e.attempts ≡ tries)
      × (length e.body ≤ error_handler_drain_limit)
unfolding error_handler mark_error
error_handler-marked st resp cause tries =
    let short = length-take error_handler_drain_limit resp.body in
    let b : Bool = st.retry_unsafe || (is_write st && st.request_written) in
    (
      record {
        status_code = resp.status_code;
        attempts = tries;
        cause = cause;
        non_idempotent = b;
        body = take error_handler_drain_limit resp.body;
      },
      ground arith,
      refl,
      refl,
      refl,
      ground (arith, short),
    )

marked_status :
    (st : RetryState) (caller_done : Bool) (e : RetriesExhausted)
    → broker_signal_status caller_done none (some (mark_error st (exhausted e)))
      ≡ some e.status_code
unfolding mark_error broker_signal_status signal_of_error
marked_status st caller_done e =
    if_cases (λ x. broker_signal_status caller_done none (some x) ≡ some e.status_code)
      (st.retry_unsafe || (is_write st && st.request_written)) _ _ (λ _. refl) (λ _. refl)

-- The broker's health record learns a status from every request that the client gives up: the last
-- response's, also where a later step failed, or 0 when there was no response.
pub signal-error_handler :
    (caller_done : Bool) (st : RetryState) (resp : Option Response) (cause : Cause) (tries : ℕ)
    → broker_signal_status caller_done none
        (some (mark_error st (error_handler resp (some cause) tries)))
      ≡ some (elim resp [ none ↦ 0 | some r ↦ r.status_code ])
unfolding error_handler
signal-error_handler caller_done st none cause tries = marked_status st caller_done _
signal-error_handler caller_done st (some resp) cause tries = marked_status st caller_done _
