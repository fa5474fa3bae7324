-- ===== src/Sender.antt =====
-- internal/semp/resilience/sender.go: the admission of a request, the errors that a caller sees, and
-- what is reported about the broker. The HTTP client that `Do` calls in between is not in the
-- repository: its answer is an argument.
pub mod Admission
pub mod Errors
mod Tests
use solace_broker_mcp.Common.{
  ℕ, zero, suc, ◌+◌, ◌-◌, String, List, [], ◌∷◌, Bool, true, false, Option, none, some,
  if◌then◌else◌, take, ◌&&◌, ◌||◌,
}
use solace_broker_mcp.Scheduler.State.{
  Scheduler, Stage, rate_limit, concurrency, scheduler_stopped, stage,
}
use solace_broker_mcp.Scheduler.Ops.{abandon, release}
use solace_broker_mcp.Retry.{RetryState, is_write}

-- A cause by what `errors.Is` finds in its chain: `ErrExchangeTransport` of the token exchange, with what
-- that error tells an agent, or nothing that the callers ask for, with its text.
pub data Cause : Type 0 where
  exchange_transport : (agent_message : String) → Cause
  other_cause : (message : String) → Cause

-- `cause` is `Err`, to which `Unwrap` leads, and `body` its bytes.
pub record RetriesExhausted : Type 0 where
  pub status_code : ℕ
  pub attempts : ℕ
  pub cause : Option Cause
  pub non_idempotent : Bool
  pub body : List ℕ

pub data SendError : Type 0 where
  busy : Stage → SendError
  deadline_exceeded canceled : SendError
  exhausted : RetriesExhausted → SendError
  failed_after : ℕ → SendError
  other_error : Cause → SendError

-- `shed`: whether the caller's own deadline has passed comes first, then the error of its context.
pub shed : Bool → Option SendError → Stage → SendError
shed true ctx_err at = deadline_exceeded
shed false (some e) at = e
shed false none at = busy at

-- The cases of the `select` of `admitScheduled` and of the two gates of `admit`.
pub data Arm : Type 0 where
  ready slow : Arm
  ctx_done : SendError → Arm
  expired : (deadline_passed : Bool) → (ctx_err : Option SendError) → Arm

pub data Verdict : Type 0 where
  admitted waiting : Verdict
  refused : SendError → Verdict

pub on_granted : Scheduler → ℕ → Scheduler × Verdict
on_granted s id = elim (s.waiters id).err [
  | some scheduler_stopped ↦ (s, refused (busy concurrency))
  | none ↦ (s, admitted)
]

-- One turn of the loop of `admitScheduled`.
pub admit_scheduled : Scheduler → ℕ → Arm → Scheduler × Verdict
admit_scheduled s id ready = on_granted s id
admit_scheduled s id (ctx_done e) = (abandon s id, refused e)
admit_scheduled s id (expired passed ctx_err) =
    (abandon s id, refused (shed passed ctx_err (stage s id)))
admit_scheduled s id slow = (s, waiting)

-- The plain gates: the slots in use, the number of warnings of slow admission, and whether the timer
-- for them is still armed.
pub record Gates : Type 0 where
  pub sem : ℕ
  pub warnings : ℕ
  pub armed : Bool

abbrev pub warn : Gates → Gates
warn g = if g.armed then record g { warnings = g.warnings + 1; armed = false } else g

-- The loop at the second gate: the arms that come, until one leaves it.
pub concurrency_gate : Gates → List Arm → Gates × Verdict
concurrency_gate g [] = (g, waiting)
concurrency_gate g (ready ∷ arms) = (record g { sem = g.sem + 1 }, admitted)
concurrency_gate g (ctx_done e ∷ arms) = (g, refused e)
concurrency_gate g (expired passed ctx_err ∷ arms) = (g, refused (shed passed ctx_err concurrency))
concurrency_gate g (slow ∷ arms) = concurrency_gate (warn g) arms

-- `admit` without a scheduler: the loop at the first gate, which goes on to the second.
unfoldable pub admit : Gates → List Arm → Gates × Verdict
admit g [] = (g, waiting)
admit g (ready ∷ arms) = concurrency_gate g arms
admit g (ctx_done e ∷ arms) = (g, refused e)
admit g (expired passed ctx_err ∷ arms) = (g, refused (shed passed ctx_err rate_limit))
admit g (slow ∷ arms) = admit (warn g) arms

pub record Response : Type 0 where
  pub status_code : ℕ
  pub body : List ℕ

abbrev pub error_handler_drain_limit : ℕ
error_handler_drain_limit = 4096

-- `errorHandler`: it never hands a response on.
pub error_handler : Option Response → Option Cause → ℕ → SendError
error_handler (some resp) cause tries = exhausted (record {
  status_code = resp.status_code;
  attempts = tries;
  cause = cause;
  non_idempotent = false;
  body = take error_handler_drain_limit resp.body;
})
error_handler none (some cause) tries = exhausted (record {
  status_code = 0;
  attempts = tries;
  cause = some cause;
  non_idempotent = false;
  body = [];
})
error_handler none none tries = failed_after tries

-- What `Do` makes of an error of the HTTP client.
unfoldable pub mark_error : RetryState → SendError → SendError
mark_error st (exhausted e) =
    if st.retry_unsafe || (is_write st && st.request_written)
    then exhausted (record e { non_idempotent = true })
    else exhausted e
mark_error st (busy at) = busy at
mark_error st deadline_exceeded = deadline_exceeded
mark_error st canceled = canceled
mark_error st (failed_after tries) = failed_after tries
mark_error st (other_error cause) = other_error cause

pub signal_of_error : Bool → SendError → Option ℕ
signal_of_error caller_done (busy at) = none
signal_of_error caller_done (exhausted e) = some e.status_code
signal_of_error caller_done deadline_exceeded = if caller_done then none else some 0
signal_of_error caller_done canceled = if caller_done then none else some 0
signal_of_error caller_done (failed_after tries) = none
signal_of_error caller_done (other_error cause) = none

-- `brokerSignalStatus` on a response or an error.
pub broker_signal_status : Bool → Option Response → Option SendError → Option ℕ
broker_signal_status caller_done resp (some (busy at)) = none
broker_signal_status caller_done (some resp) err = some resp.status_code
broker_signal_status caller_done none (some e) = signal_of_error caller_done e
broker_signal_status caller_done none none = none

pub data Reply : Type 0 where
  response : Response → Reply
  failure : SendError → Reply

-- `Do` once `admit` has given its verdict: the client's reply, the deferred release, and the hook's
-- argument.
pub record Done : Type 0 where
  pub scheduler : Scheduler
  pub reply : Reply
  pub reported : Option ℕ

pub finish : Bool → Scheduler → ℕ → RetryState → Reply → Done
finish caller_done s id st (response resp) = record {
  scheduler = release s id;
  reply = response resp;
  reported = broker_signal_status caller_done (some resp) none;
}
finish caller_done s id st (failure e) = record {
  scheduler = release s id;
  reply = failure (mark_error st e);
  reported = broker_signal_status caller_done none (some (mark_error st e));
}

pub send : Bool → Scheduler → ℕ → Arm → RetryState → Reply → Option Done
send caller_done s id arm st reply =
    let (s', v) = admit_scheduled s id arm in
    elim v [
      | waiting ↦ none
      | refused e ↦ some (record {
        scheduler = s';
        reply = failure e;
        reported = broker_signal_status caller_done none (some e);
      })
      | admitted ↦ some (finish caller_done s' id st reply)
    ]
