-- ===== src/Scheduler/Invariant.antt =====
-- Every step of the scheduler keeps its counters, maps and rotors in agreement and its slots within
-- the limit and the capacity of the semaphore.
use solace_broker_mcp.Common.{
  ℕ, ◌≤◌, ◌<◌, ◌≡◌, refl, String, some, arith, Option-cases, inl, inr, true, Bool, ◌||◌, not,
  if_cases,
}
use solace_broker_mcp.Common.Assoc.{find, find-put}
use solace_broker_mcp.Scheduler.State.{
  CallerKey, Waiter, Session, Subject, Scheduler, no_session, no_subject,
}
use solace_broker_mcp.Scheduler.Ops.{
  prune_session, enqueue, release_locked, remove_from_queue, abandon, release, resolve,
  enter_subject, enter_session,
}
use solace_broker_mcp.Scheduler.Shape.{
  ShapeOf, SubjectShape, put_session-SubjectShape, new_session-SubjectShape, put_subject-Shape,
  new_subject-Shape, write_session-Shape, held-le, prune_session_cases, prune_session-Shape,
}
use solace_broker_mcp.Scheduler.Cases.{
  slot_back, queue_without, release_locked_cases, remove_from_queue_cases,
}

pub record Inv (s : Scheduler) : Type 0 where
  pub shape : ShapeOf s
  pub slots : s.sem ≡ s.in_flight
  pub fits : s.in_flight ≤ s.limit
  pub capped : s.limit ≤ s.sem_cap

-- What pruning leaves alone.
pub record Keeps (s t : Scheduler) : Type 0 where
  pub sem : t.sem ≡ s.sem
  pub sem_cap : t.sem_cap ≡ s.sem_cap
  pub limit : t.limit ≡ s.limit
  pub in_flight : t.in_flight ≡ s.in_flight
  pub waiters : t.waiters ≡ s.waiters
  pub next_id : t.next_id ≡ s.next_id

pub prune_session-Keeps :
    (s : Scheduler) (name : String) (key : CallerKey) → Keeps s (prune_session s name key)
prune_session-Keeps s name key =
    prune_session_cases (Keeps s) s name key (λ _. ground arith) (λ subj cs e f a b. ground arith)
      (λ subj cs e f a b. ground arith)

-- What the invariant does not speak of.
pub frame :
    (s : Scheduler) (h : ℕ → Waiter) (n : ℕ) (credit wake stopped exited : Bool)
    → Inv s
    → Inv (record s {
      waiters = h;
      next_id = n;
      credit = credit;
      wake = wake;
      stopped = stopped;
      exited = exited;
    })
frame s h n credit wake stopped exited v = record {
  shape = v.shape;
  slots = v.slots;
  fits = v.fits;
  capped = v.capped;
}

pub prune_session-Inv :
    (s : Scheduler) (name : String) (key : CallerKey) → Inv s → Inv (prune_session s name key)
prune_session-Inv s name key v =
    let shape = prune_session-Shape s name key v.shape in
    let k = prune_session-Keeps s name key in
    record {
      shape = shape;
      slots = ground (arith, v.slots, k.sem, k.in_flight);
      fits = ground (arith, v.fits, k.limit, k.in_flight);
      capped = ground (arith, v.capped, k.limit, k.sem_cap);
    }

module _ (s : Scheduler) (v : Inv s) where
  pub slot_back-Inv :
      (key : CallerKey) (subj : Subject) (cs : Session)
      → find key.subject s.subjects ≡ some subj
      → find key.session subj.sessions ≡ some cs
      → 0 < cs.in_flight
      → Inv (slot_back s key subj cs)
  slot_back-Inv key subj cs e f pos =
      let (lower, upper) =
        held-le s.rotor s.subjects s.in_flight key.subject key.session subj cs v.shape e f in
      record {
        shape =
            write_session-Shape s.rotor s.subjects s.in_flight key.subject key.session subj cs _ _ _
              v.shape e f (omega arith) (omega arith);
        slots = ground (arith, v.slots);
        fits = omega (arith, v.fits);
        capped = v.capped;
      }

  pub queue_without-Inv :
      (id : ℕ) (key : CallerKey) (subj : Subject) (cs : Session)
      → find key.subject s.subjects ≡ some subj
      → find key.session subj.sessions ≡ some cs
      → Inv (queue_without s id key subj cs)
  queue_without-Inv id key subj cs e f = record {
    shape =
        write_session-Shape s.rotor s.subjects s.in_flight _ _ subj cs _ _ _ v.shape e f refl refl;
    slots = v.slots;
    fits = v.fits;
    capped = v.capped;
  }

  release_locked-Inv : (key : CallerKey) → Inv (release_locked s key)
  release_locked-Inv key =
      release_locked_cases Inv s key v
        (λ subj cs e f pos. prune_session-Inv _ _ key (slot_back-Inv key subj cs e f pos))

  remove_from_queue-Inv : (id : ℕ) → Inv (remove_from_queue s id)
  remove_from_queue-Inv id =
      remove_from_queue_cases Inv s id (λ _. v)
        (λ subj cs e f. prune_session-Inv _ _ _ (queue_without-Inv id _ subj cs e f))

module _ (s : Scheduler) (id : ℕ) (v : Inv s) where
  pub resolve-Inv : Inv (resolve s id)
  resolve-Inv = frame s _ _ _ _ _ _ v

  unfoldable pub hand_back : Scheduler
  hand_back = release_locked (resolve s id) (s.waiters id).key

  hand_back-Inv : Inv (record hand_back { wake = true })
  unfolding hand_back
  hand_back-Inv = frame hand_back _ _ _ true _ _ (release_locked-Inv _ resolve-Inv _)

  pub abandon-Inv : Inv (abandon s id)
  unfolding abandon hand_back
  abandon-Inv =
      if_cases Inv (s.waiters id).resolved _ _ (λ _. v)
        (λ _.
          if_cases Inv (s.waiters id).granted _ _ (λ _. hand_back-Inv)
            (λ _. remove_from_queue-Inv _ resolve-Inv id))

  pub release-Inv : Inv (release s id)
  unfolding release hand_back
  release-Inv =
      if_cases Inv ((s.waiters id).resolved || not (s.waiters id).granted) _ _ (λ _. v)
        (λ _. hand_back-Inv)

pub enter_subject-Inv :
    (s : Scheduler) (name : String)
    → Inv s
    → Inv (enter_subject s name).0
      × (find name (enter_subject s name).0.subjects ≡ some (enter_subject s name).1)
unfolding enter_subject
enter_subject-Inv s name v = elim (Option-cases (find name s.subjects)) [
  | inr (subj, e) ↦ rw (e, enter_subject) (v, e)
  | inl e ↦
      rw (e, enter_subject)
        (
          record {
            shape = new_subject-Shape s.rotor s.subjects s.in_flight name v.shape e;
            slots = v.slots;
            fits = v.fits;
            capped = v.capped;
          },
          ground (arith, find-put name name no_subject s.subjects),
        )
]

pub enter_session-SubjectShape :
    (subj : Subject) (name : String)
    → SubjectShape subj
    → SubjectShape (enter_session subj name).0
      × (find name (enter_session subj name).0.sessions ≡ some (enter_session subj name).1)
      × ((enter_session subj name).0.in_flight ≡ subj.in_flight)
unfolding enter_session
enter_session-SubjectShape subj name h = elim (Option-cases (find name subj.sessions)) [
  | inr (cs, e) ↦ rw (e, enter_session) (h, e, refl)
  | inl e ↦
      rw (e, enter_session)
        (
          new_session-SubjectShape subj name h e,
          ground (arith, find-put name name no_session subj.sessions),
          refl,
        )
]

pub enqueue-Inv : (s : Scheduler) (key : CallerKey) → Inv s → Inv (enqueue s key).0
unfolding enqueue
enqueue-Inv s key v =
    let (v', found) = enter_subject-Inv s key.subject v in
    let s' = (enter_subject s key.subject).0 in
    let subj = (enter_subject s key.subject).1 in
    let (ok, here, same) =
      enter_session-SubjectShape subj key.session (v'.shape.each key.subject subj found) in
    if_cases Inv s.stopped _ _ (λ _. frame s _ _ _ _ _ _ v)
      (λ _. record {
        shape =
            put_subject-Shape s'.rotor s'.subjects s'.in_flight s'.in_flight key.subject subj _
              v'.shape found (put_session-SubjectShape _ key.session _ _ _ ok here refl)
              (ground (arith, same));
        slots = v'.slots;
        fits = v'.fits;
        capped = v'.capped;
      })
