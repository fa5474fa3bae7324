-- ===== src/Sender/Admission.antt =====
-- What a request leaves behind at the gates.
use solace_broker_mcp.Common.{
  ℕ, ◌+◌, ◌≡◌, ◌⊎◌, List, [], ◌∷◌, Bool, false, Option, none, some, if◌then◌else◌, not, ◌||◌, refl,
  arith, inl, inr, if_cases,
}
use solace_broker_mcp.Scheduler.State.{
  Scheduler, WaitError, rate_limit, concurrency, scheduler_stopped,
}
use solace_broker_mcp.Scheduler.Ops.{abandon, release}
use solace_broker_mcp.Scheduler.Invariant.{Inv}
use solace_broker_mcp.Scheduler.Returns.{
  holds_slot, Returns, Counted, abandon-Returns, release-Returns,
}
use solace_broker_mcp.Scheduler.Settling.{abandons_settle, hand_back-settles}
use solace_broker_mcp.Retry.{RetryState}
use solace_broker_mcp.Sender.{
  Arm, ready, slow, ctx_done, expired, Verdict, admitted, waiting, refused, Gates, warn, SendError,
  shed, on_granted, admit_scheduled, concurrency_gate, admit, Reply, response, failure, Done,
  finish, send,
}

abandon-holds_slot : (s : Scheduler) (id : ℕ) → holds_slot (abandon s id) id ≡ false
abandon-holds_slot s id = ground (arith, abandons_settle s id)

release-holds_slot : (s : Scheduler) (id : ℕ) → holds_slot (release s id) id ≡ false
unfolding release
release-holds_slot s id =
    if_cases (λ (t : Scheduler). holds_slot t id ≡ false)
      ((s.waiters id).resolved || not (s.waiters id).granted) _ _ (λ e. ground arith)
      (λ _. ground (arith, hand_back-settles s id))

-- The request holds no slot, and the one that it held is given back.
abbrev pub SlotFree : Scheduler → ℕ → Scheduler → Type 0
SlotFree s id t = (holds_slot t id ≡ false) × Returns (holds_slot s id) s t

module _ (s : Scheduler) (id : ℕ) (v : Inv s) (c : Counted s id) where
  finish-SlotFree :
      (caller_done : Bool) (st : RetryState) (reply : Reply)
      → SlotFree s id (finish caller_done s id st reply).scheduler
  unfolding finish
  finish-SlotFree caller_done st (response resp) =
      (release-holds_slot s id, release-Returns s id v c)
  finish-SlotFree caller_done st (failure e) = (release-holds_slot s id, release-Returns s id v c)

  granted_send-SlotFree :
      (caller_done : Bool) (st : RetryState) (reply : Reply) (d : Done) (err : Option WaitError)
      → (s.waiters id).err ≡ err
      → (err ≡ none) ⊎ ((s.waiters id).granted ≡ false)
      → send caller_done s id ready st reply ≡ some d
      → SlotFree s id d.scheduler
  unfolding send admit_scheduled on_granted
  granted_send-SlotFree caller_done st reply d none e h g =
      let (free, back) = finish-SlotFree caller_done st reply in
      (ground (arith, e, free), ground (arith, e, back.0, back.1))
  granted_send-SlotFree caller_done st reply d (some scheduler_stopped) e h g =
      (ground (arith, e), ground (arith, e))

  -- Whichever arm of its `select` ends `Do`, its request holds no slot in the scheduler afterwards, not
  -- even one that was granted at the moment the request was given up; and a slot that it held is given
  -- back to the scheduler's count and semaphore, no slot more and no slot less. The state satisfies the
  -- scheduler's invariant, a slot that the waiter holds is counted for its session, and a waiter that has
  -- an error was not granted.
  pub send_keeps_no_slot :
      (caller_done : Bool) (arm : Arm) (st : RetryState) (reply : Reply) (d : Done)
      → ((s.waiters id).err ≡ none) ⊎ ((s.waiters id).granted ≡ false)
      → send caller_done s id arm st reply ≡ some d
      → SlotFree s id d.scheduler
  unfolding send admit_scheduled
  send_keeps_no_slot caller_done ready st reply d h e =
      granted_send-SlotFree caller_done st reply d _ refl h e
  send_keeps_no_slot caller_done slow st reply d h e = absurd (ground arith)
  send_keeps_no_slot caller_done (ctx_done x) st reply d h e =
      let back = abandon-Returns s id v c in
      (ground (arith, abandon-holds_slot s id), ground (arith, back.0, back.1))
  send_keeps_no_slot caller_done (expired p x) st reply d h e =
      let back = abandon-Returns s id v c in
      (ground (arith, abandon-holds_slot s id), ground (arith, back.0, back.1))

-- The plain gates: what a run from the state `g` comes to.
abbrev pub GateRun : Gates → Gates × Verdict → Type 0
GateRun g r =
    (r.0.warnings + (if r.0.armed then 1 else 0) ≡ g.warnings + (if g.armed then 1 else 0))
    × (((r.1 ≡ admitted) × (r.0.sem ≡ g.sem + 1))
        ⊎ ((r.1 ≡ waiting) × (r.0.sem ≡ g.sem))
        ⊎ ((e : SendError) × (r.1 ≡ refused e) × (r.0.sem ≡ g.sem)))

rewarn : (g : Gates) (r : Gates × Verdict) → GateRun (warn g) r → GateRun g r
rewarn g r h = ground arith

concurrency_gate-GateRun : (g : Gates) (arms : List Arm) → GateRun g (concurrency_gate g arms)
unfolding concurrency_gate
concurrency_gate-GateRun g [] = (refl, inr (inl (refl, refl)))
concurrency_gate-GateRun g (ready ∷ arms) = (refl, inl (refl, refl))
concurrency_gate-GateRun g (ctx_done e ∷ arms) = (refl, inr (inr (e, refl, refl)))
concurrency_gate-GateRun g (expired p x ∷ arms) =
    (refl, inr (inr (shed p x concurrency, refl, refl)))
concurrency_gate-GateRun g (slow ∷ arms) = rewarn g _ (concurrency_gate-GateRun (warn g) arms)

-- Whatever arms come at the two plain gates: each warning uses up the one timer that is armed for
-- both, and a slot is taken exactly for a request that is admitted.
pub admit-GateRun : (g : Gates) (arms : List Arm) → GateRun g (admit g arms)
unfolding admit
admit-GateRun g [] = (refl, inr (inl (refl, refl)))
admit-GateRun g (ready ∷ arms) = concurrency_gate-GateRun g arms
admit-GateRun g (ctx_done e ∷ arms) = (refl, inr (inr (e, refl, refl)))
admit-GateRun g (expired p x ∷ arms) = (refl, inr (inr (shed p x rate_limit, refl, refl)))
admit-GateRun g (slow ∷ arms) = rewarn g _ (admit-GateRun (warn g) arms)
