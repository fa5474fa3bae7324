-- ===== src/Scheduler/Ops.antt =====
-- The operations of internal/semp/resilience/scheduler.go on its state.
use solace_broker_mcp.Common.{
  ℕ, ◌+◌, ◌-◌, String, List, [], ◌∷◌, ◌++◌, true, Option, none, some, ite, ℕ_discrete, ◌==◌,
  if◌then◌else◌, ◌||◌, not,
}
use solace_broker_mcp.Common.Assoc.{find, put, del}
use solace_broker_mcp.Scheduler.Rotor.{insert, remove}
use solace_broker_mcp.Scheduler.State.{
  CallerKey, Session, Subject, Scheduler, scheduler_stopped, new_waiter, set_waiter, no_session,
  no_subject, session_active, subject_active,
}

-- `pruneSessionLocked`. `name` is the key under which the pointer `subj` is stored.
unfoldable pub prune_subject : Scheduler → String → Subject → Scheduler
prune_subject s name subj =
    if subject_active subj
    then record s { subjects = put name subj s.subjects }
    else record s { subjects = del name s.subjects; rotor = remove s.rotor name }

prune_session_of : Scheduler → String → Subject → CallerKey → Option Session → Scheduler
unfolding prune_subject
prune_session_of s name subj key none = s
prune_session_of s name subj key (some cs) =
    if session_active cs
    then s
    else prune_subject s name (record subj {
      sessions = del key.session subj.sessions;
      rotor = remove subj.rotor key.session;
    })

unfoldable pub prune_session : Scheduler → String → CallerKey → Scheduler
unfolding prune_session_of
prune_session s name key = elim (find name s.subjects) [
  | none ↦ s
  | some subj ↦ prune_session_of s name subj key (find key.session subj.sessions)
]

abbrev signal : Scheduler → Scheduler
signal s = record s { wake = true }

-- The entry of the session's subject, made and put into the rotation if there is none.
unfoldable pub enter_subject : Scheduler → String → Scheduler × Subject
enter_subject s name = elim (find name s.subjects) [
  | some subj ↦ (s, subj)
  | none ↦ (
    record s { subjects = put name no_subject s.subjects; rotor = insert s.rotor name },
    no_subject,
  )
]

unfoldable pub enter_session : Subject → String → Subject × Session
enter_session subj name = elim (find name subj.sessions) [
  | some cs ↦ (subj, cs)
  | none ↦ (
    record subj { sessions = put name no_session subj.sessions; rotor = insert subj.rotor name },
    no_session,
  )
]

unfoldable pub enqueue_open : Scheduler → CallerKey → Scheduler
unfolding enter_subject enter_session
enqueue_open s key =
    let (s', subj) = enter_subject s key.subject in
    let (subj', cs) = enter_session subj key.session in
    let cs' : Session = record cs { queue = cs.queue ++ s.next_id ∷ [] } in
    record s' {
      subjects =
          put key.subject (record subj' { sessions = put key.session cs' subj'.sessions })
            s'.subjects;
      waiters = set_waiter s.waiters s.next_id (new_waiter key);
      next_id = s.next_id + 1;
    }

unfoldable pub enqueue_stopped : Scheduler → CallerKey → Scheduler
enqueue_stopped s key = record s {
  waiters =
      set_waiter s.waiters s.next_id
        (record (new_waiter key) { err = some scheduler_stopped; closes = 1 });
  next_id = s.next_id + 1;
}

-- `Enqueue`, with the number of the new waiter.
unfoldable pub enqueue : Scheduler → CallerKey → Scheduler × ℕ
unfolding enqueue_open enqueue_stopped
enqueue s key =
    (if s.stopped then enqueue_stopped s key else signal (enqueue_open s key), s.next_id)

release_session : Scheduler → CallerKey → Subject → Option Session → Scheduler
release_session s key subj none = s
release_session s key subj (some cs) =
    if cs.in_flight == 0
    then s
    else prune_session
        (record s {
          sem = s.sem - 1;
          in_flight = s.in_flight - 1;
          subjects =
              put key.subject
                (record subj {
                  in_flight = subj.in_flight - 1;
                  sessions =
                      put key.session (record cs { in_flight = cs.in_flight - 1 }) subj.sessions;
                })
                s.subjects;
        })
        key.subject key

-- `releaseLocked`.
unfoldable pub release_locked : Scheduler → CallerKey → Scheduler
unfolding release_session
release_locked s key = elim (find key.subject s.subjects) [
  | none ↦ s
  | some subj ↦ release_session s key subj (find key.session subj.sessions)
]

-- The loop of `removeFromQueueLocked`: the first entry that is the waiter goes.
unfoldable pub drop_id : ℕ → List ℕ → List ℕ
drop_id id [] = []
drop_id id (q ∷ qs) = ite (ℕ_discrete q id) qs (q ∷ drop_id id qs)

remove_from_session : Scheduler → ℕ → CallerKey → Subject → Option Session → Scheduler
remove_from_session s id key subj none = s
remove_from_session s id key subj (some cs) =
    prune_session
      (record s {
        subjects =
            put key.subject
              (record subj {
                sessions =
                    put key.session (record cs { queue = drop_id id cs.queue }) subj.sessions;
              })
              s.subjects;
      })
      key.subject key

-- `removeFromQueueLocked`.
unfoldable pub remove_from_queue : Scheduler → ℕ → Scheduler
unfolding remove_from_session
remove_from_queue s id =
    let key = (s.waiters id).key in
    elim (find key.subject s.subjects) [
      | none ↦ s
      | some subj ↦ remove_from_session s id key subj (find key.session subj.sessions)
    ]

abbrev pub resolve : Scheduler → ℕ → Scheduler
resolve s id = record s {
  waiters = set_waiter s.waiters id (record (s.waiters id) { resolved = true });
}

unfoldable pub abandon : Scheduler → ℕ → Scheduler
abandon s id =
    let w = s.waiters id in
    if w.resolved
    then s
    else if w.granted
    then signal (release_locked (resolve s id) w.key)
    else remove_from_queue (resolve s id) id

unfoldable pub release : Scheduler → ℕ → Scheduler
release s id =
    let w = s.waiters id in
    if w.resolved || not w.granted then s else signal (release_locked (resolve s id) w.key)
