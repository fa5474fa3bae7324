-- ===== src/Scheduler/State.antt =====
-- The state of internal/semp/resilience/scheduler.go. A waiter is named by a number, in the order of
-- allocation, and `waiters` is the heap that those pointers go into. Every critical section of the
-- scheduler's mutex is one function on this state.
use solace_broker_mcp.Common.{
  ℕ, ◌+◌, ◌-◌, ◌/◌, String, List, [], Bool, true, false, Option, none, some, ite, ℕ_discrete, leb,
  ltb, ◌==◌, if◌then◌else◌, length, ◌&&◌, ◌||◌, not,
}
use solace_broker_mcp.Common.Assoc.{Assoc, find, any, any_other, sum_of}
use solace_broker_mcp.Scheduler.Rotor.{Rotor}
use solace_broker_mcp.Scheduler.Rotor

pub record CallerKey : Type 0 where
  pub subject : String
  pub session : String

pub data WaitError : Type 0 where
  scheduler_stopped : WaitError

-- `closes` counts the calls of `close(w.ready)`: 0 is an open channel, and a second call would panic.
pub record Waiter : Type 0 where
  pub key : CallerKey
  pub closes : ℕ
  pub granted : Bool
  pub err : Option WaitError
  pub resolved : Bool

pub record Session : Type 0 where
  pub queue : List ℕ
  pub in_flight : ℕ

pub record Subject : Type 0 where
  pub sessions : Assoc Session
  pub rotor : Rotor
  pub in_flight : ℕ

-- `sem` is `len(s.sem)` and `sem_cap` its capacity; `wake` is the one place of the channel `wake`,
-- `exited` the closed channel `done`.
pub record Scheduler : Type 0 where
  pub subjects : Assoc Subject
  pub rotor : Rotor
  pub credit : Bool
  pub sem : ℕ
  pub sem_cap : ℕ
  pub limit : ℕ
  pub in_flight : ℕ
  pub paced : Bool
  pub wake : Bool
  pub stopped : Bool
  pub exited : Bool
  pub waiters : ℕ → Waiter
  pub next_id : ℕ

unfoldable pub new_waiter : CallerKey → Waiter
new_waiter key = record { key = key; closes = 0; granted = false; err = none; resolved = false }

unfoldable pub set_waiter : (ℕ → Waiter) → ℕ → Waiter → ℕ → Waiter
set_waiter h id w j = ite (ℕ_discrete j id) w (h j)

abbrev pub no_session : Session
no_session = record { queue = []; in_flight = 0 }

abbrev pub no_subject : Subject
no_subject = record { sessions = []; rotor = Rotor.empty; in_flight = 0 }

-- `NewScheduler`: the limit is clamped to the capacity of the semaphore.
unfoldable pub new_scheduler : ℕ → Bool → ℕ → Scheduler
new_scheduler cap enabled limit = record {
  subjects = [];
  rotor = Rotor.empty;
  credit = false;
  sem = 0;
  sem_cap = cap;
  limit = if ltb limit 1 || ltb cap limit then cap else limit;
  in_flight = 0;
  paced = enabled;
  wake = false;
  stopped = false;
  exited = false;
  waiters = λ _. new_waiter (record { subject = ""; session = "" });
  next_id = 0;
}

abbrev pub is_queued : Session → Bool
is_queued cs = ltb 0 (length cs.queue)

unfoldable pub session_active : Session → Bool
session_active cs = is_queued cs || ltb 0 cs.in_flight

unfoldable pub has_queued : Subject → Bool
has_queued subj = any is_queued subj.sessions

unfoldable pub subject_active : Subject → Bool
subject_active subj = ltb 0 (length subj.sessions)

abbrev pub session_starves : Session → Bool
session_starves cs = cs.in_flight == 0 && is_queued cs

abbrev pub subject_starves : Subject → Bool
subject_starves subj = subj.in_flight == 0 && has_queued subj

-- A pointer `except` is given by its key: the keys of a map are distinct.
unfoldable pub has_starved_session : Subject → String → Bool
has_starved_session subj except = any_other session_starves except subj.sessions

unfoldable pub has_starved_subject : Scheduler → String → Bool
has_starved_subject s except = any_other subject_starves except s.subjects

-- The formula of both ceilings: `(total + parts - 1) / parts` with at least one part and at least 1 as the result.
unfoldable pub share : ℕ → ℕ → ℕ
share total parts =
    let n = if ltb parts 1 then 1 else parts in
    let c = (total + n - 1) / n in if ltb c 1 then 1 else c

unfoldable pub subject_ceiling : Scheduler → ℕ
subject_ceiling s = share s.limit (length s.subjects)

unfoldable pub session_ceiling : Scheduler → Subject → ℕ
session_ceiling s subj = share (subject_ceiling s) (length subj.sessions)

-- `free` and `headroom` are compared with 0 and 1 only, where the subtraction that stops at 0 agrees
-- with Go's.
unfoldable pub eligible : Scheduler → String → Subject → Bool
eligible s name subj =
    let free = s.limit - s.in_flight in
    if free == 0
    then false
    else if leb (subject_ceiling s) subj.in_flight
    then false
    else if ltb 1 s.limit && (free == 1 && (ltb 0 subj.in_flight && has_starved_subject s name))
    then false
    else true

unfoldable pub session_eligible : Scheduler → Subject → String → Session → Bool
session_eligible s subj name cs =
    let ceiling = subject_ceiling s in
    let headroom = ceiling - subj.in_flight in
    if leb (session_ceiling s subj) cs.in_flight
    then false
    else if ltb 1 ceiling
        && (headroom == 1 && (ltb 0 cs.in_flight && has_starved_session subj name))
    then false
    else true

pub data Stage : Type 0 where
  rate_limit concurrency : Stage

stage_of_session : Scheduler → Subject → String → Option Session → Stage
stage_of_session s subj name none = rate_limit
stage_of_session s subj name (some cs) =
    if not (session_eligible s subj name cs) then concurrency else rate_limit

stage_of_subject : Scheduler → CallerKey → Option Subject → Stage
unfolding stage_of_session
stage_of_subject s key none = rate_limit
stage_of_subject s key (some subj) =
    if not (eligible s key.subject subj)
    then concurrency
    else stage_of_session s subj key.session (find key.session subj.sessions)

unfoldable pub stage : Scheduler → ℕ → Stage
unfolding stage_of_subject
stage s id = let key = (s.waiters id).key in stage_of_subject s key (find key.subject s.subjects)

unfoldable pub session_in_flight : Scheduler → CallerKey → ℕ
session_in_flight s key = elim (find key.subject s.subjects) [
  | none ↦ 0
  | some subj ↦ elim (find key.session subj.sessions) [ none ↦ 0 | some cs ↦ cs.in_flight ]
]

-- `stats`: the numbers of subjects, of sessions and of slots held.
unfoldable pub stats : Scheduler → ℕ × ℕ × ℕ
stats s = (length s.subjects, sum_of (λ subj. length subj.sessions) s.subjects, s.in_flight)
