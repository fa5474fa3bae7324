-- ===== src/Scheduler/Returns.antt =====
-- What `Abandon` and `Release` of internal/semp/resilience/scheduler.go give back of a waiter's slot.
use solace_broker_mcp.Common.{
  ℕ, ◌+◌, ◌<◌, ◌≡◌, refl, Bool, true, false, none, some, not, ◌&&◌, ◌||◌, ◌==◌, if◌then◌else◌,
  arith, inl, inr, Option-cases, Bool-cases, if_cases,
}
use solace_broker_mcp.Common.Assoc.{find}
use solace_broker_mcp.Scheduler.State.{CallerKey, Session, Subject, Scheduler, session_in_flight}
use solace_broker_mcp.Scheduler.Ops.{
  abandon, release, release_locked, remove_from_queue, resolve, prune_session,
}
use solace_broker_mcp.Scheduler.Shape.{held-le}
use solace_broker_mcp.Scheduler.Cases.{slot_back, queue_without, remove_from_queue_cases}
use solace_broker_mcp.Scheduler.Invariant.{Inv, prune_session-Keeps, resolve-Inv}

-- A waiter holds a slot from its grant until a call settles it.
abbrev pub holds_slot : Scheduler → ℕ → Bool
holds_slot s id = (s.waiters id).granted && not (s.waiters id).resolved

-- The slots of a state and of one after it that has given back one, or none.
abbrev pub Returns : Bool → Scheduler → Scheduler → Type 0
Returns one s t =
    (t.in_flight + (if one then 1 else 0) ≡ s.in_flight) × (t.sem + (if one then 1 else 0) ≡ s.sem)

no_session_in_flight :
    (s : Scheduler) (key : CallerKey)
    → find key.subject s.subjects ≡ none
    → session_in_flight s key ≡ 0
unfolding session_in_flight
no_session_in_flight s key e = rw (e, session_in_flight) refl

unknown_session_in_flight :
    (s : Scheduler) (key : CallerKey) (subj : Subject)
    → find key.subject s.subjects ≡ some subj
    → find key.session subj.sessions ≡ none
    → session_in_flight s key ≡ 0
unfolding session_in_flight
unknown_session_in_flight s key subj e f = rw (e, session_in_flight, f) refl

known_session_in_flight :
    (s : Scheduler) (key : CallerKey) (subj : Subject) (cs : Session)
    → find key.subject s.subjects ≡ some subj
    → find key.session subj.sessions ≡ some cs
    → session_in_flight s key ≡ cs.in_flight
unfolding session_in_flight
known_session_in_flight s key subj cs e f = rw (e, session_in_flight, f) refl

slot_back-Returns :
    (s : Scheduler) (key : CallerKey) (subj : Subject) (cs : Session)
    → Inv s
    → find key.subject s.subjects ≡ some subj
    → find key.session subj.sessions ≡ some cs
    → 0 < cs.in_flight
    → Returns true s (prune_session (slot_back s key subj cs) key.subject key)
slot_back-Returns s key subj cs v e f pos =
    let k = prune_session-Keeps (slot_back s key subj cs) key.subject key in
    let (lower, upper) =
      held-le s.rotor s.subjects s.in_flight key.subject key.session subj cs v.shape e f in
    (
      omega (arith, k.in_flight, lower, upper, pos),
      omega (arith, k.sem, lower, upper, pos, v.slots),
    )

release_locked-Returns :
    (s : Scheduler) (key : CallerKey)
    → Inv s
    → 0 < session_in_flight s key
    → Returns true s (release_locked s key)
unfolding release_locked
release_locked-Returns s key v pos = elim (Option-cases (find key.subject s.subjects)) [
  | inl e ↦ absurd (omega (arith, no_session_in_flight s key e))
  | inr (subj, e) ↦ elim (Option-cases (find key.session subj.sessions)) [
    | inl f ↦ absurd (omega (arith, unknown_session_in_flight s key subj e f))
    | inr (cs, f) ↦ elim (Bool-cases (cs.in_flight == 0)) [
      | inl z ↦ absurd (ground (arith, known_session_in_flight s key subj cs e f))
      | inr nz ↦
          rw (e, release_locked, f, nz) (slot_back-Returns s key subj cs v e f (ground arith))
    ]
  ]
]

remove_from_queue-Returns : (s : Scheduler) (id : ℕ) → Returns false s (remove_from_queue s id)
remove_from_queue-Returns s id =
    remove_from_queue_cases (Returns false s) s id (λ _. (omega arith, omega arith))
      (λ subj cs e f.
        let k =
          prune_session-Keeps (queue_without s id (s.waiters id).key subj cs)
            (s.waiters id).key.subject (s.waiters id).key in
        (omega (arith, k.in_flight), omega (arith, k.sem)))

-- The session of a waiter that holds a slot counts one.
abbrev pub Counted : Scheduler → ℕ → Type 0
Counted s id = holds_slot s id ≡ true → 0 < session_in_flight s (s.waiters id).key

module _ (s : Scheduler) (id : ℕ) (v : Inv s) (c : Counted s id) where
  -- `Abandon` gives back the slot that its waiter holds, and no other.
  pub abandon-Returns : Returns (holds_slot s id) s (abandon s id)
  unfolding abandon session_in_flight
  abandon-Returns =
      if_cases (λ t. Returns (holds_slot s id) s t) (s.waiters id).resolved _ _ (λ e. ground arith)
        (λ e.
          if_cases (λ t. Returns (holds_slot s id) s t) (s.waiters id).granted _ _
            (λ g.
              let h : holds_slot s id ≡ true = ground arith in
              let r =
                release_locked-Returns (resolve s id) (s.waiters id).key (resolve-Inv s id v)
                  (c h) in
              ground (arith, r.0, r.1))
            (λ g. let r = remove_from_queue-Returns (resolve s id) id in ground (arith, r.0, r.1)))

  -- `Release` gives back the slot that its waiter holds, and no other.
  pub release-Returns : Returns (holds_slot s id) s (release s id)
  unfolding release session_in_flight
  release-Returns =
      if_cases (λ t. Returns (holds_slot s id) s t)
        ((s.waiters id).resolved || not (s.waiters id).granted) _ _ (λ e. ground arith)
        (λ e.
          let h : holds_slot s id ≡ true = ground arith in
          let r =
            release_locked-Returns (resolve s id) (s.waiters id).key (resolve-Inv s id v) (c h) in
          ground (arith, r.0, r.1))
