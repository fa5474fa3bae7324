-- ===== src/Scheduler/Reachable.antt =====
-- Every state that the scheduler can reach, by any steps of its callers and its dispatcher.
use solace_broker_mcp.Common.{
  ℕ, zero, suc, ◌≡◌, refl, some, arith, inl, inr, true, false, Bool, Option-cases, if_cases, not,
}
use solace_broker_mcp.Common.Assoc.{nil-All, sum_of}
use solace_broker_mcp.Scheduler.State.{Scheduler, new_scheduler, new_waiter, Subject}
use solace_broker_mcp.Scheduler.Dispatch.{
  grant_one, grant_all, dispatch_locked, on_tick, on_wake, on_stopped, stop, drain, Step, enqueues,
  abandons, releases, stops, ticks, wakes, exits, Reach, here, next,
}
use solace_broker_mcp.Scheduler.Ringed.{empty-Ringed}
use solace_broker_mcp.Scheduler.Invariant.{frame}
use solace_broker_mcp.Scheduler.Valid.{Valid, enqueue-Valid, abandon-Valid, release-Valid}
use solace_broker_mcp.Scheduler.Grants.{grant_one-Grants, dequeue-Dequeues}
use solace_broker_mcp.Scheduler.Admission.{admit-Valid}
use solace_broker_mcp.Scheduler.DrainAll.{drain-Valid}

pub grant_one-Valid : (s t : Scheduler) → Valid s → grant_one s ≡ some t → Valid t
grant_one-Valid s t v h =
    let (i, lt, g, _) = grant_one-Grants s t h in
    let (j, j_lt, d) = dequeue-Dequeues s g.subj g.subj' g.id g.dequeued in
    rw g.result (admit-Valid s v i lt g.name g.subj g.found g.allowed j g.id j_lt g.subj' d)

pub grant_all-Valid : (fuel : ℕ) (s : Scheduler) → Valid s → Valid (grant_all fuel s)
unfolding grant_all
grant_all-Valid zero s v = v
grant_all-Valid (suc fuel) s v = elim (Option-cases (grant_one s)) [
  | inl e ↦ rw (e, grant_all) v
  | inr (t, e) ↦ rw (e, grant_all) (grant_all-Valid fuel t (grant_one-Valid s t v e))
]

pub set_flags :
    (s : Scheduler) (credit wake stopped exited : Bool)
    → Valid s
    → Valid (record s { credit = credit; wake = wake; stopped = stopped; exited = exited })
set_flags s credit wake stopped exited v = record {
  inv = frame s _ _ credit wake stopped exited v.inv;
  queues = v.queues;
  closed_once = v.closed_once;
}

dispatch_locked-Valid : (s : Scheduler) → Valid s → Valid (dispatch_locked s)
unfolding dispatch_locked
dispatch_locked-Valid s v =
    if_cases Valid (not s.paced) _ _ (λ _. grant_all-Valid s.limit s v)
      (λ _.
        if_cases Valid (not s.credit) _ _ (λ _. v)
          (λ _. elim (Option-cases (grant_one s)) [
            | inl e ↦ rw (e, dispatch_locked) v
            | inr (t, e) ↦
                rw (e, dispatch_locked) (set_flags t false _ _ _ (grant_one-Valid s t v e))
          ]))

pub Step-Valid : {s t : Scheduler} → Step s t → Valid s → Valid t
unfolding on_tick on_wake on_stopped stop
Step-Valid (enqueues s key) v = enqueue-Valid s key v
Step-Valid (abandons s id _) v = abandon-Valid s id v
Step-Valid (releases s id _) v = release-Valid s id v
Step-Valid (stops s) v = set_flags s _ _ _ _ v
Step-Valid (ticks s _ _) v = dispatch_locked-Valid _ (set_flags s true _ _ _ v)
Step-Valid (wakes s _ _) v = dispatch_locked-Valid _ (set_flags s _ false _ _ v)
Step-Valid (exits s _ _) v = set_flags (drain s) _ _ _ _ (drain-Valid s v).0

pub new_scheduler-Valid :
    (cap : ℕ) (paced : Bool) (limit : ℕ) → Valid (new_scheduler cap paced limit)
unfolding new_scheduler new_waiter sum_of
new_scheduler-Valid cap paced limit = record {
  inv = record {
    shape = record { ringed = empty-Ringed Subject; total = refl; each = nil-All _ };
    slots = refl;
    fits = omega arith;
    capped = ground arith;
  };
  queues = nil-All _;
  closed_once = λ id. omega arith;
}

-- Every state that a new scheduler reaches, by any calls of `Enqueue`, `Abandon`, `Release` and
-- `Stop` and any turns of the dispatcher in any order, is valid: the slots counted for the
-- sessions add up to those of the subjects and in total, the total equals the semaphore's and is
-- within the limit, the rotations hold the keys of the maps once each, every queued waiter is
-- pending under its own key, and no channel is closed twice.
pub Reach-Valid :
    (cap : ℕ) (paced : Bool) (limit : ℕ) {s : Scheduler}
    → Reach (new_scheduler cap paced limit) s
    → Valid s
Reach-Valid cap paced limit here = new_scheduler-Valid cap paced limit
Reach-Valid cap paced limit (next r st) = Step-Valid st (Reach-Valid cap paced limit r)
