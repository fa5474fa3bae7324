-- ===== src/Scheduler/Grants.antt =====
-- What a grant is: the waiter, the session and the subject that the two scans settle on.
use solace_broker_mcp.Common.{
  ℕ, zero, suc, ◌+◌, ◌≤◌, ◌<◌, ◌≡◌, refl, String, List, [], ◌∷◌, none, some, arith, Option-cases,
  ◌⊎◌, inl, inr, Bool-cases, true, ◌==◌,
}
use solace_broker_mcp.Common.Assoc.{find, put}
use solace_broker_mcp.Scheduler.Rotor.{at, len, advance_past}
use solace_broker_mcp.Scheduler.State.{
  Session, Subject, Scheduler, eligible, session_eligible, has_queued,
}
use solace_broker_mcp.Scheduler.Dispatch.{
  try_session, dequeue_from, dequeue, try_subject, grant_from, grant_one, admit,
}

-- The session found at a place of the rotation, and the head of its queue.
pub record Dequeues (s : Scheduler) (subj : Subject) (i id : ℕ) (subj' : Subject) : Type 0 where
  pub name : String
  pub cs : Session
  pub rest : List ℕ
  pub place : at subj.rotor i ≡ some name
  pub found : find name subj.sessions ≡ some cs
  pub head : cs.queue ≡ id ∷ rest
  pub served : session_eligible s subj name cs ≡ true
  pub result : subj' ≡ record subj {
    sessions = put name (record cs { queue = rest }) subj.sessions;
    rotor = advance_past subj.rotor i;
  }

List-cases : (xs : List ℕ) → (xs ≡ []) ⊎ ((x : ℕ) × (ys : List ℕ) × (xs ≡ x ∷ ys))
List-cases [] = inl refl
List-cases (x ∷ xs) = inr (x, xs, refl)

pub try_session-Dequeues :
    (s : Scheduler) (subj subj' : Subject) (i id : ℕ)
    → try_session s subj i ≡ some (id, subj')
    → Dequeues s subj i id subj'
unfolding try_session
try_session-Dequeues s subj subj' i id h = elim (Option-cases (at subj.rotor i)) [
  | inl e ↦ absurd (ground arith)
  | inr (name, e) ↦ elim (Option-cases (find name subj.sessions)) [
    | inl f ↦ absurd (ground arith)
    | inr (cs, f) ↦ elim (List-cases cs.queue) [
      | inl q ↦ absurd (ground arith)
      | inr (x, rest, q) ↦ record {
        name = name;
        cs = cs;
        rest = rest;
        place = e;
        found = f;
        head = ground arith;
        served = ground arith;
        result = ground arith;
      }
    ]
  ]
]

pub dequeue_from-Dequeues :
    (s : Scheduler) (subj subj' : Subject) (n i id : ℕ)
    → dequeue_from s subj n i ≡ some (id, subj')
    → (j : ℕ) × (j < i + n) × Dequeues s subj j id subj'
unfolding dequeue_from
dequeue_from-Dequeues s subj subj' zero i id h = cc
dequeue_from-Dequeues s subj subj' (suc n) i id h = elim (Option-cases (try_session s subj i)) [
  | inl e ↦
      let (j, lt, d) =
        dequeue_from-Dequeues s subj subj' n (i + 1) id (rw (e, dequeue_from) at h) in
      (j, omega arith, d)
  | inr ((x, t), e) ↦ (i, omega arith, try_session-Dequeues s subj subj' i id (ground arith))
]

pub dequeue-Dequeues :
    (s : Scheduler) (subj subj' : Subject) (id : ℕ)
    → dequeue s subj ≡ some (id, subj')
    → (j : ℕ) × (j < len subj.rotor) × Dequeues s subj j id subj'
unfolding dequeue
dequeue-Dequeues s subj subj' id h =
    let (j, lt, d) = dequeue_from-Dequeues s subj subj' (len subj.rotor) 0 id h in
    (j, omega arith, d)

-- The subject at a place of the rotation, served with one of its waiters.
pub record Grants (s : Scheduler) (i : ℕ) (t : Scheduler) : Type 0 where
  pub name : String
  pub subj : Subject
  pub id : ℕ
  pub subj' : Subject
  pub place : at s.rotor i ≡ some name
  pub found : find name s.subjects ≡ some subj
  pub queued : has_queued subj ≡ true
  pub allowed : eligible s name subj ≡ true
  pub dequeued : dequeue s subj ≡ some (id, subj')
  pub result : t ≡ admit s i name id subj'

pub try_subject-Grants : (s t : Scheduler) (i : ℕ) → try_subject s i ≡ some t → Grants s i t
unfolding try_subject
try_subject-Grants s t i h = elim (Option-cases (at s.rotor i)) [
  | inl e ↦ absurd (ground arith)
  | inr (name, e) ↦ elim (Option-cases (find name s.subjects)) [
    | inl f ↦ absurd (ground arith)
    | inr (subj, f) ↦ elim (Option-cases (dequeue s subj)) [
      | inl q ↦ absurd (ground arith)
      | inr ((id, subj'), q) ↦ record {
        name = name;
        subj = subj;
        id = id;
        subj' = subj';
        place = e;
        found = f;
        queued = ground arith;
        allowed = ground arith;
        dequeued = q;
        result = ground arith;
      }
    ]
  ]
]

-- The scan serves the first place that can be served.
pub grant_from-Grants :
    (s t : Scheduler) (n i : ℕ)
    → grant_from s n i ≡ some t
    → (j : ℕ) × (j < i + n)
      × (i ≤ j)
      × Grants s j t
      × ((k : ℕ) → i ≤ k → k < j → try_subject s k ≡ none)
unfolding grant_from
grant_from-Grants s t zero i h = cc
grant_from-Grants s t (suc n) i h = elim (Option-cases (try_subject s i)) [
  | inl e ↦
      let (j, lt, le, g, before) = grant_from-Grants s t n (i + 1) (rw (e, grant_from) at h) in
      (
        j,
        omega arith,
        omega arith,
        g,
        λ k ik kj. elim (Bool-cases (i == k)) [
          | inl same ↦ let here : i ≡ k = ground arith in rw (← here) e
          | inr other ↦ before k (ground arith) kj
        ],
      )
  | inr (u, e) ↦ (
    i,
    omega arith,
    omega arith,
    try_subject-Grants s t i (ground arith),
    λ k ik kj. absurd (omega arith),
  )
]

pub grant_one-Grants :
    (s t : Scheduler)
    → grant_one s ≡ some t
    → (i : ℕ) × (i < len s.rotor) × Grants s i t × ((k : ℕ) → k < i → try_subject s k ≡ none)
unfolding grant_one
grant_one-Grants s t h =
    let (j, lt, le, g, before) = grant_from-Grants s t (len s.rotor) 0 h in
    (j, omega arith, g, λ k kj. before k (omega arith) kj)

-- A scan without a grant has tried every place.
pub grant_from-none :
    (s : Scheduler) (n i : ℕ)
    → grant_from s n i ≡ none
    → (k : ℕ) → i ≤ k
    → k < i + n
    → try_subject s k ≡ none
unfolding grant_from
grant_from-none s zero i h k ik kj = absurd (omega arith)
grant_from-none s (suc n) i h k ik kj = elim (Option-cases (try_subject s i)) [
  | inl e ↦ elim (Bool-cases (i == k)) [
    | inl same ↦ let here : i ≡ k = ground arith in rw (← here) e
    | inr other ↦
        grant_from-none s n (i + 1) (rw (e, grant_from) at h) k (ground arith) (omega arith)
  ]
  | inr (u, e) ↦ absurd (ground arith)
]
