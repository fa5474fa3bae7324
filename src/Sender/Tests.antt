-- ===== src/Sender/Tests.antt =====
-- Runs of the sender, and an instance of each of its theorems.
use solace_broker_mcp.Common.{
  ◌≡◌, [], ◌∷◌, true, false, none, some, refl, inl, arith, ℕ_discrete, key_eq,
}
use solace_broker_mcp.Common.Assoc.{find, put, del, modify, any, any_other, sum_of}
use solace_broker_mcp.Scheduler.Rotor.{insert}
use solace_broker_mcp.Scheduler.Rotor.{at, advance_past, insert, remove, remove_at, index_of}
use solace_broker_mcp.Scheduler.State.{
  CallerKey, Scheduler, new_scheduler, session_in_flight, concurrency, rate_limit, stats, stage,
  share, subject_ceiling, session_ceiling, eligible, session_eligible, has_starved_subject,
  has_starved_session, has_queued, session_active, subject_active, new_waiter, set_waiter,
}
use solace_broker_mcp.Scheduler.Ops.{
  enqueue, release, abandon, enqueue_open, enqueue_stopped, enter_subject, enter_session,
  release_locked, remove_from_queue, prune_session, prune_subject, drop_id,
}
use solace_broker_mcp.Scheduler.Dispatch.{
  on_wake, enqueues, wakes, Reach, here, next, grant_one, grant_all, grant_from, try_subject,
  dequeue, dequeue_from, try_session, dispatch_locked,
}
use solace_broker_mcp.Scheduler.Dispatch.{admit as grant}
use solace_broker_mcp.Scheduler.Returns.{holds_slot, Counted}
use solace_broker_mcp.Scheduler.Reachable.{Reach-Valid}
use solace_broker_mcp.Retry.{RetryState, new_retry_state}
use solace_broker_mcp.Sender.{
  ready, slow, ctx_done, expired, canceled, admitted, refused, busy, Gates, admit, concurrency_gate,
  shed, Response, response, Done, send, admit_scheduled,
}
use solace_broker_mcp.Sender.Admission.{SlotFree, send_keeps_no_slot, GateRun, admit-GateRun}

abbrev idle : Gates
idle = record { sem = 0; warnings = 0; armed = true }

-- One budget and one warning for both gates.
gates_test :
    (admit idle (slow ∷ ready ∷ slow ∷ ready ∷ [])
      ≡ (record { sem = 1; warnings = 1; armed = false }, admitted))
    × ((admit idle (ready ∷ expired false none ∷ [])).1 ≡ refused (busy concurrency))
    × ((admit idle (expired false none ∷ [])).1 ≡ refused (busy rate_limit))
unfolding admit concurrency_gate shed
gates_test = (refl, refl, refl)

abbrev key : CallerKey
key = record { subject = "a"; session = "x" }

abbrev queued : Scheduler
queued = (enqueue (new_scheduler 2 false 2) key).0

abbrev put_request : RetryState
put_request = new_retry_state "PUT" false true

abbrev ok : Response
ok = record { status_code = 200; body = [] }

-- The request is granted a slot.
abbrev served : Scheduler
served = on_wake queued

abbrev after : Done
after = elim (send false served 0 (ctx_done canceled) put_request (response ok)) [
  | none ↦ record { scheduler = queued; reply = response ok; reported = none }
  | some d ↦ d
]

sent :
    (queued.exited ≡ false)
    × (queued.wake ≡ true)
    × ((served.waiters 0).err ≡ none)
    × (holds_slot served 0 ≡ true)
    × (session_in_flight served (served.waiters 0).key ≡ 1)
    × (send false served 0 (ctx_done canceled) put_request (response ok) ≡ some after)
unfolding send admit_scheduled stats stage session_in_flight release release_locked abandon
    remove_from_queue drop_id on_wake dispatch_locked enqueue new_scheduler grant_all find sum_of
    put key_eq grant_one insert try_subject at has_queued any eligible subject_ceiling share dequeue
    try_session session_eligible session_ceiling grant ℕ_discrete any_other del modify dequeue_from
    grant_from enqueue_open enqueue_stopped enter_session enter_subject prune_session prune_subject
    advance_past index_of remove remove_at has_starved_session has_starved_subject new_waiter
    session_active set_waiter subject_active
sent = (refl, refl, refl, refl, refl, refl)

served-Reach : Reach (new_scheduler 2 false 2) served
served-Reach = next (next here (enqueues _ _)) (wakes _ sent.0 sent.1)

served-Counted : Counted served 0
served-Counted h = omega (arith, sent.4)

send_keeps_no_slot_example : SlotFree served 0 after.scheduler
send_keeps_no_slot_example =
    send_keeps_no_slot served 0 (Reach-Valid 2 false 2 served-Reach).inv served-Counted false
      (ctx_done canceled) put_request (response ok) after (inl sent.2) sent.5

admit-GateRun_example : GateRun idle (admit idle (slow ∷ ready ∷ ready ∷ []))
admit-GateRun_example = admit-GateRun idle (slow ∷ ready ∷ ready ∷ [])
