-- ===== src/Scheduler/Dispatch.antt =====
-- The dispatcher of internal/semp/resilience/scheduler.go: the scans of `dequeueLocked` and
-- `grantOneLocked`, `dispatchLocked`, `drain`, and the steps that other goroutines and the
-- dispatcher can take, in any order.
use mathlib.Core.Option
use solace_broker_mcp.Common.{
  ℕ, zero, suc, ◌+◌, String, List, [], ◌∷◌, true, false, Option, none, some, if◌then◌else◌, not,
  ◌≡◌, ◌<◌,
}
use solace_broker_mcp.Common.Assoc.{Assoc, find, put, del, modify}
use solace_broker_mcp.Scheduler.Rotor.{len, at, advance_past, remove}
use solace_broker_mcp.Scheduler.State.{
  CallerKey, Waiter, Session, Subject, Scheduler, scheduler_stopped, set_waiter, session_active,
  has_queued, subject_active, eligible, session_eligible,
}
use solace_broker_mcp.Scheduler.Ops.{prune_session, enqueue, abandon, release}

-- `cs.queue[0]`, taken if the session may be served.
take_head : Scheduler → Subject → ℕ → String → Session → List ℕ → Option (ℕ × Subject)
take_head s subj i name cs [] = none
take_head s subj i name cs (id ∷ rest) =
    if not (session_eligible s subj name cs)
    then none
    else some (
      id,
      record subj {
        sessions = put name (record cs { queue = rest }) subj.sessions;
        rotor = advance_past subj.rotor i;
      },
    )

take_session : Scheduler → Subject → ℕ → String → Option Session → Option (ℕ × Subject)
unfolding take_head
take_session s subj i name none = none
take_session s subj i name (some cs) = take_head s subj i name cs cs.queue

-- One round of the loop of `dequeueLocked`.
unfoldable pub try_session : Scheduler → Subject → ℕ → Option (ℕ × Subject)
unfolding take_session
try_session s subj i = elim (at subj.rotor i) [
  | none ↦ none
  | some name ↦ take_session s subj i name (find name subj.sessions)
]

unfoldable pub dequeue_from : Scheduler → Subject → ℕ → ℕ → Option (ℕ × Subject)
dequeue_from s subj zero i = none
dequeue_from s subj (suc rounds) i = elim (try_session s subj i) [
  | some r ↦ some r
  | none ↦ dequeue_from s subj rounds (i + 1)
]

unfoldable pub dequeue : Scheduler → Subject → Option (ℕ × Subject)
unfolding dequeue_from
dequeue s subj = dequeue_from s subj (len subj.rotor) 0

-- The body that runs when `dequeueLocked` has found a waiter.
unfoldable pub admit : Scheduler → ℕ → String → ℕ → Subject → Scheduler
admit s i name id subj =
    let w = s.waiters id in
    let take_slot : Session → Session = λ cs. record cs { in_flight = cs.in_flight + 1 } in
    let held =
      prune_session
        (record s {
          waiters = set_waiter s.waiters id (record w { granted = true });
          sem = s.sem + 1;
          in_flight = s.in_flight + 1;
          subjects =
              put name
                (record subj {
                  in_flight = subj.in_flight + 1;
                  sessions = modify take_slot w.key.session subj.sessions;
                })
                s.subjects;
          rotor = advance_past s.rotor i;
        })
        name w.key in
    let granted = held.waiters id in
    record held {
      waiters = set_waiter held.waiters id (record granted { closes = granted.closes + 1 });
    }

grant_subject : Scheduler → ℕ → String → Option Subject → Option Scheduler
grant_subject s i name none = none
grant_subject s i name (some subj) =
    if not (has_queued subj)
    then none
    else if not (eligible s name subj)
    then none
    else Option.map (λ r. admit s i name r.0 r.1) (dequeue s subj)

-- One round of the loop of `grantOneLocked`.
unfoldable pub try_subject : Scheduler → ℕ → Option Scheduler
unfolding grant_subject
try_subject s i = elim (at s.rotor i) [
  | none ↦ none
  | some name ↦ grant_subject s i name (find name s.subjects)
]

unfoldable pub grant_from : Scheduler → ℕ → ℕ → Option Scheduler
grant_from s zero i = none
grant_from s (suc rounds) i = elim (try_subject s i) [
  | some s' ↦ some s'
  | none ↦ grant_from s rounds (i + 1)
]

-- `grantOneLocked`: `none` is `false`, with nothing changed.
unfoldable pub grant_one : Scheduler → Option Scheduler
unfolding grant_from
grant_one s = grant_from s (len s.rotor) 0

-- `for s.grantOneLocked() {}`, with fuel.
unfoldable pub grant_all : ℕ → Scheduler → Scheduler
grant_all zero s = s
grant_all (suc fuel) s = elim (grant_one s) [ none ↦ s | some s' ↦ grant_all fuel s' ]

spend : Scheduler → Option Scheduler → Scheduler
spend s none = s
spend s (some s') = record s' { credit = false }

-- `dispatchLocked`. A grant needs a free slot, so `limit` rounds are enough.
unfoldable pub dispatch_locked : Scheduler → Scheduler
unfolding spend
dispatch_locked s =
    if not s.paced then grant_all s.limit s else if not s.credit then s else spend s (grant_one s)

-- The two inner loops of `drain`.
abbrev pub failed : Waiter → Waiter
failed w = record w { err = some scheduler_stopped; closes = w.closes + 1 }

unfoldable pub fail_all : List ℕ → (ℕ → Waiter) → ℕ → Waiter
fail_all [] h = h
fail_all (id ∷ ids) h = fail_all ids (set_waiter h id (failed (h id)))

unfoldable pub drain_session : Subject → String → Session → Subject
drain_session subj name cs =
    let cs' : Session = record cs { queue = [] } in
    let subj' : Subject = record subj { sessions = put name cs' subj.sessions } in
    if session_active cs'
    then subj'
    else record subj { sessions = del name subj'.sessions; rotor = remove subj.rotor name }

unfoldable pub drain_sessions : Assoc Session → Subject → Subject
unfolding drain_session
drain_sessions [] subj = subj
drain_sessions ((name, cs) ∷ rest) subj = drain_sessions rest (drain_session subj name cs)

unfoldable pub fail_sessions : Assoc Session → (ℕ → Waiter) → ℕ → Waiter
fail_sessions [] h = h
fail_sessions ((name, cs) ∷ rest) h = fail_sessions rest (fail_all cs.queue h)

unfoldable pub drain_subject : Scheduler → String → Subject → Scheduler
unfolding drain_sessions fail_sessions
drain_subject s name subj =
    let subj' = drain_sessions subj.sessions subj in
    let h = fail_sessions subj.sessions s.waiters in
    if subject_active subj'
    then record s { subjects = put name subj' s.subjects; waiters = h }
    else record s { subjects = del name s.subjects; rotor = remove s.rotor name; waiters = h }

unfoldable pub drain_subjects : Assoc Subject → Scheduler → Scheduler
unfolding drain_subject
drain_subjects [] s = s
drain_subjects ((name, subj) ∷ rest) s = drain_subjects rest (drain_subject s name subj)

-- `drain`: the loops run over the maps as they stand at the start of each.
unfoldable pub drain : Scheduler → Scheduler
drain s = drain_subjects s.subjects s

-- `Stop` closes `stopped`; the dispatcher then leaves its loop by way of `drain`.
unfoldable pub stop : Scheduler → Scheduler
stop s = record s { stopped = true }

unfoldable pub on_stopped : Scheduler → Scheduler
on_stopped s = record (drain s) { exited = true }

unfoldable pub on_tick : Scheduler → Scheduler
on_tick s = dispatch_locked (record s { credit = true })

unfoldable pub on_wake : Scheduler → Scheduler
on_wake s = dispatch_locked (record s { wake = false })

-- What can happen next: a call of some goroutine, or a turn of the dispatcher's `select`, which
-- picks any case that is ready.
pub data Step : Scheduler → Scheduler → Type 0 where
  enqueues : (s : Scheduler) (key : CallerKey) → Step s (enqueue s key).0
  abandons : (s : Scheduler) (id : ℕ) → id < s.next_id → Step s (abandon s id)
  releases : (s : Scheduler) (id : ℕ) → id < s.next_id → Step s (release s id)
  stops : (s : Scheduler) → Step s (stop s)
  ticks : (s : Scheduler) → s.exited ≡ false → s.paced ≡ true → Step s (on_tick s)
  wakes : (s : Scheduler) → s.exited ≡ false → s.wake ≡ true → Step s (on_wake s)
  exits : (s : Scheduler) → s.exited ≡ false → s.stopped ≡ true → Step s (on_stopped s)

pub data Reach (s : Scheduler) : Scheduler → Type 0 where
  here : Reach s s
  next : {t u : Scheduler} → Reach s t → Step t u → Reach s u
