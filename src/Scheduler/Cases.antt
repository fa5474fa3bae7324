-- ===== src/Scheduler/Cases.antt =====
-- What `releaseLocked` and `removeFromQueueLocked` can do, for proofs about either.
use solace_broker_mcp.Common.{
  ℕ, ◌-◌, ◌<◌, ◌≡◌, some, arith, inl, inr, Option-cases, Bool-cases, ◌==◌,
}
use solace_broker_mcp.Common.Assoc.{find, put}
use solace_broker_mcp.Scheduler.State.{CallerKey, Session, Subject, Scheduler}
use solace_broker_mcp.Scheduler.Ops.{prune_session, release_locked, remove_from_queue, drop_id}

-- The state with one slot of a session given back.
abbrev pub slot_back : Scheduler → CallerKey → Subject → Session → Scheduler
slot_back s key subj cs = record s {
  sem = s.sem - 1;
  in_flight = s.in_flight - 1;
  subjects =
      put key.subject
        (record subj {
          in_flight = subj.in_flight - 1;
          sessions = put key.session (record cs { in_flight = cs.in_flight - 1 }) subj.sessions;
        })
        s.subjects;
}

-- The state with one waiter taken out of a queue.
abbrev pub queue_without : Scheduler → ℕ → CallerKey → Subject → Session → Scheduler
queue_without s id key subj cs = record s {
  subjects =
      put key.subject
        (record subj {
          sessions = put key.session (record cs { queue = drop_id id cs.queue }) subj.sessions;
        })
        s.subjects;
}

pub release_locked_cases {ℓ} :
    (P : Scheduler → Type ℓ) (s : Scheduler) (key : CallerKey)
    → P s
    → ((subj : Subject) (cs : Session)
        → find key.subject s.subjects ≡ some subj
        → find key.session subj.sessions ≡ some cs
        → 0 < cs.in_flight
        → P (prune_session (slot_back s key subj cs) key.subject key))
    → P (release_locked s key)
unfolding release_locked
release_locked_cases P s key ignored given = elim (Option-cases (find key.subject s.subjects)) [
  | inl e ↦ rw (e, release_locked) ignored
  | inr (subj, e) ↦ elim (Option-cases (find key.session subj.sessions)) [
    | inl f ↦ rw (e, release_locked, f) ignored
    | inr (cs, f) ↦ elim (Bool-cases (cs.in_flight == 0)) [
      | inl z ↦ rw (e, release_locked, f, z) ignored
      | inr nz ↦ rw (e, release_locked, f, nz) (given subj cs e f (ground arith))
    ]
  ]
]

pub remove_from_queue_cases {ℓ} :
    (P : Scheduler → Type ℓ) (s : Scheduler) (id : ℕ)
    → let key = (s.waiters id).key in
      (((subj : Subject) (cs : Session)
          → find key.subject s.subjects ≡ some subj
          → find key.session subj.sessions ≡ some cs
          → ⊥)
        → P s)
      → ((subj : Subject) (cs : Session)
          → find key.subject s.subjects ≡ some subj
          → find key.session subj.sessions ≡ some cs
          → P (prune_session (queue_without s id key subj cs) key.subject key))
      → P (remove_from_queue s id)
unfolding remove_from_queue
remove_from_queue_cases P s id missing taken =
    elim (Option-cases (find (s.waiters id).key.subject s.subjects)) [
      | inl e ↦ rw (e, remove_from_queue) (missing (λ subj' cs' e' f'. cc))
      | inr (subj, e) ↦ elim (Option-cases (find (s.waiters id).key.session subj.sessions)) [
        | inl f ↦ rw (e, remove_from_queue, f) (missing (λ subj' cs' e' f'. ground arith))
        | inr (cs, f) ↦ rw (e, remove_from_queue, f) (taken subj cs e f)
      ]
    ]
