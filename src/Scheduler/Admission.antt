-- ===== src/Scheduler/Admission.antt =====
-- A grant keeps the invariant: the slot is free, the waiter is the head of its queue and its channel
-- is still open.
use solace_broker_mcp.Common.{
  ℕ, suc, ◌+◌, ◌≤◌, ◌<◌, ◌≡◌, ◌≢◌, refl, sym, ◌∙◌, ap, String, ◌∷◌, some, arith, true, false, subst,
}
use solace_broker_mcp.Common.Assoc.{find, put, modify, Assoc, put-All_ne, find-put}
use solace_broker_mcp.Scheduler.Rotor.{len, advance_past}
use solace_broker_mcp.Scheduler.State.{
  Waiter, Session, Subject, Scheduler, set_waiter, eligible, session_active,
}
use solace_broker_mcp.Scheduler.Ops.{prune_session}
use solace_broker_mcp.Scheduler.Dispatch.{admit}
use solace_broker_mcp.Scheduler.Ringed.{advance_past-Ringed}
use solace_broker_mcp.Scheduler.Shape.{
  SubjectShape, put_subject-Shape, put_session-SubjectShape, prune_session_cases,
}
use solace_broker_mcp.Scheduler.Invariant.{Inv, prune_session-Keeps, prune_session-Inv, frame}
use solace_broker_mcp.Scheduler.Queues.{
  QueuesOf, Queues-set, Waiting, Pending, Waiting-mono, Waiting-set, prune_session-Queues,
}
use solace_broker_mcp.Scheduler.Valid.{Valid, closes-set}
use solace_broker_mcp.Scheduler.Grants.{Dequeues}

-- The state in which `admit` prunes: the slot is taken and the cursors have moved.
abbrev pub slot_taken : Scheduler → ℕ → String → ℕ → Subject → Scheduler
slot_taken s i name id subj =
    let w = s.waiters id in
    let take_slot : Session → Session = λ cs. record cs { in_flight = cs.in_flight + 1 } in
    record s {
      waiters = set_waiter s.waiters id (record w { granted = true });
      sem = s.sem + 1;
      in_flight = s.in_flight + 1;
      subjects =
          put name
            (record subj {
              in_flight = subj.in_flight + 1;
              sessions = modify take_slot w.key.session subj.sessions;
            })
            s.subjects;
      rotor = advance_past s.rotor i;
    }

pub eligible-free :
    (s : Scheduler) (name : String) (subj : Subject)
    → eligible s name subj ≡ true
    → s.in_flight < s.limit
unfolding eligible
eligible-free s name subj h = ground arith

module _ (s : Scheduler) (v : Valid s) (i : ℕ) (lt : i < len s.rotor) (name : String)
    (subj : Subject) (found : find name s.subjects ≡ some subj)
    (allowed : eligible s name subj ≡ true) (j id : ℕ) (j_lt : j < len subj.rotor) (subj' : Subject)
    (d : Dequeues s subj j id subj') where
  open d use {cs, rest}

  -- The head of the queue waits for this session.
  head_waits :
      (id < s.next_id)
      × Pending (s.waiters id) name d.name
      × Waiting s.waiters s.next_id name d.name (suc id) rest
  head_waits =
      let w : Waiting s.waiters s.next_id name d.name 0 (id ∷ rest) =
        subst (Waiting s.waiters s.next_id name d.name 0) d.head
          (v.queues name subj found d.name cs d.found) in
      (w.1, w.2, w.3)

  -- The sessions with the head gone from its queue and its slot counted.
  served : Session
  served = record { queue = rest; in_flight = cs.in_flight + 1 }

  sessions' : Assoc Session
  sessions' = put d.name served (put d.name (record cs { queue = rest }) subj.sessions)

  modify-sessions :
      modify
        (λ c. record c { in_flight = c.in_flight + 1 })
        (s.waiters id).key.session
        subj'.sessions
      ≡ sessions'
  unfolding modify sessions' served
  modify-sessions =
      let here : (s.waiters id).key.session ≡ d.name = head_waits.1.1 in
      let same : subj'.sessions ≡ put d.name (record cs { queue = rest }) subj.sessions =
        ap (λ x. x.sessions) d.result in
      rw (here, same) (rw (find_first, modify) refl)
    where
      find_first :
          find d.name (put d.name (record cs { queue = rest }) subj.sessions)
          ≡ some (record cs { queue = rest })
      find_first = ground (arith, find-put d.name d.name (record cs { queue = rest }) subj.sessions)

  served_subject : Subject
  served_subject = record {
    in_flight = subj.in_flight + 1;
    sessions = sessions';
    rotor = advance_past subj.rotor j;
  }

  served_subject-Shape : SubjectShape served_subject
  unfolding sessions' served served_subject
  served_subject-Shape =
      let shape = v.inv.shape.each name subj found in
      let turned : SubjectShape (record subj { rotor = advance_past subj.rotor j }) = record {
        ringed = advance_past-Ringed subj.rotor subj.sessions shape.ringed j j_lt;
        total = shape.total;
      } in
      put_session-SubjectShape _ d.name (record cs { queue = rest }) _ _
        (put_session-SubjectShape _ d.name cs _ _ turned d.found refl)
        (ground (arith, find-put d.name d.name (record cs { queue = rest }) subj.sessions))
        (omega arith)

  -- The state before pruning, in terms of what is known of the grant.
  taken_subjects : (slot_taken s i name id subj').subjects ≡ put name served_subject s.subjects
  unfolding served_subject
  taken_subjects =
      let r = d.result in
      rw modify-sessions (
        ap
          (λ (x : Subject).
            put name (record x { in_flight = x.in_flight + 1; sessions = sessions' }) s.subjects)
          d.result)

  slot_taken-Inv : Inv (slot_taken s i name id subj')
  slot_taken-Inv = record {
    shape = rw taken_subjects (
        put_subject-Shape _ s.subjects s.in_flight _ name subj served_subject
          (record {
            ringed = advance_past-Ringed s.rotor s.subjects v.inv.shape.ringed i lt;
            total = v.inv.shape.total;
            each = v.inv.shape.each;
          })
          found served_subject-Shape (unfold served_subject in omega arith));
    slots = ground (arith, v.inv.slots);
    fits = omega (arith, eligible-free s name subj allowed);
    capped = v.inv.capped;
  }

  taken_waiters : ℕ → Waiter
  taken_waiters = set_waiter s.waiters id (record (s.waiters id) { granted = true })

  -- Outside the session that was served, no queue holds the waiter.
  elsewhere :
      (k l : String) (c : Session)
      → Waiting s.waiters s.next_id k l 0 c.queue
      → (name ≡ k → d.name ≡ l → ⊥)
      → Waiting taken_waiters s.next_id k l 0 c.queue
  unfolding taken_waiters
  elsewhere k l c w other =
      Waiting-set s.waiters s.next_id k l id _ 0 s.next_id c.queue (omega arith)
        (λ x _ lt' p same.
          other (rw (sym head_waits.1.0 ∙ ap (λ y. (s.waiters y).key.subject) (sym same)) p.0)
            (rw (sym head_waits.1.1 ∙ ap (λ y. (s.waiters y).key.session) (sym same)) p.1))
        w

  served-queue : Waiting taken_waiters s.next_id name d.name 0 served.queue
  unfolding taken_waiters served
  served-queue = Waiting-mono taken_waiters s.next_id name d.name (suc id) 0 rest (omega arith) (
      Waiting-set s.waiters s.next_id name d.name id _ (suc id) s.next_id rest (omega arith)
        (λ x le lt' p. omega arith) head_waits.2)

  slot_taken-Queues : QueuesOf (slot_taken s i name id subj')
  unfolding sessions' served_subject
  slot_taken-Queues = rw taken_subjects (
      put-All_ne _ name served_subject s.subjects
        (λ k c ne e l cs' f.
          unfold taken_waiters in elsewhere k l cs' (v.queues k c e l cs' f) (λ p _. ne p))
        (put-All_ne _ d.name served (put d.name (record cs { queue = rest }) subj.sessions)
          (λ l cs' ne f.
            unfold taken_waiters in
            elsewhere name l cs'
              (v.queues name subj found l cs'
                (ground (arith, find-put d.name l (record cs { queue = rest }) subj.sessions)))
              (λ _ p. ne p))
          (unfold taken_waiters in served-queue)))

  held : Scheduler
  held = prune_session (slot_taken s i name id subj') name (s.waiters id).key

  held-waiters : held.waiters ≡ taken_waiters
  unfolding held taken_waiters
  held-waiters =
      (prune_session-Keeps (slot_taken s i name id subj') name (s.waiters id).key).waiters

  taken_self : taken_waiters id ≡ record (s.waiters id) { granted = true }
  unfolding taken_waiters set_waiter
  taken_self = ground arith

  taken-closes : (x : ℕ) → (taken_waiters x).closes ≤ 1
  unfolding taken_waiters
  taken-closes = closes-set s.waiters id _ (v.closed_once id) v.closed_once

  answered_once : (held.waiters id).closes + 1 ≤ 1
  answered_once = rw (held-waiters, taken_self) (omega (arith, head_waits))

  not-Pending : (x : ℕ) (k l : String) → Pending (held.waiters x) k l → x ≢ id
  not-Pending x k l p same =
      let e : (held.waiters x).granted ≡ true = rw (held-waiters, same, taken_self) refl in
      cc (p.3, e)

  held-Queues : QueuesOf held
  unfolding held
  held-Queues =
      prune_session-Queues (slot_taken s i name id subj') name (s.waiters id).key
        slot_taken-Inv.shape slot_taken-Queues

  held-Inv : Inv held
  unfolding held
  held-Inv = prune_session-Inv (slot_taken s i name id subj') name (s.waiters id).key slot_taken-Inv

  -- A grant keeps the invariant.
  pub admit-Valid : Valid (admit s i name id subj')
  unfolding admit held
  admit-Valid = record {
    inv = frame held _ _ _ _ _ _ held-Inv;
    queues =
        Queues-set held.waiters held.next_id held.next_id id _ held.subjects (omega arith)
          (λ x k l _ p. not-Pending x k l p) held-Queues;
    closed_once =
        closes-set held.waiters id _ answered_once (λ x. rw held-waiters (taken-closes x));
  }

  -- The session that was served now holds a slot, so pruning changes nothing.
  served_found : find name (slot_taken s i name id subj').subjects ≡ some served_subject
  served_found = rw taken_subjects (ground (arith, find-put name name served_subject s.subjects))

  session_found : find (s.waiters id).key.session served_subject.sessions ≡ some served
  unfolding served_subject sessions'
  session_found = rw (head_waits.1.1) (
      ground (
        arith,
        find-put d.name d.name served (put d.name (record cs { queue = rest }) subj.sessions),
      ))

  served_active : session_active served ≡ true
  unfolding session_active served
  served_active = ground arith

  held-same : held ≡ slot_taken s i name id subj'
  unfolding held
  held-same =
      prune_session_cases (λ t. t ≡ slot_taken s i name id subj') (slot_taken s i name id subj')
        name (s.waiters id).key (λ _. refl) (λ x c e f idle _. absurd (still_held x c e f idle))
        (λ x c e f idle _. absurd (still_held x c e f idle))
    where
      still_held :
          (x : Subject) (c : Session)
          → find name (slot_taken s i name id subj').subjects ≡ some x
          → find (s.waiters id).key.session x.sessions ≡ some c
          → session_active c ≡ false
          → ⊥
      still_held x c e f idle = ground (arith, served_found, session_found, served_active)

  -- What a grant changes, apart from the waiters.
  pub record Admitted (t : Scheduler) : Type 0 where
    pub rotor : t.rotor ≡ advance_past s.rotor i
    pub charged :
        (x : Subject) × (find name t.subjects ≡ some x) × (x.in_flight ≡ subj.in_flight + 1)
    pub in_flight : t.in_flight ≡ s.in_flight + 1
    pub limit : t.limit ≡ s.limit
    pub paced : t.paced ≡ s.paced
    pub credit : t.credit ≡ s.credit

  pub admit-Admitted : Admitted (admit s i name id subj')
  unfolding admit
  admit-Admitted =
      let e : held ≡ slot_taken s i name id subj' = held-same in
      record {
        rotor = unfold held in ap (λ (x : Scheduler). x.rotor) e;
        charged = (
          served_subject,
          unfold held in ap (λ (x : Scheduler). find name x.subjects) e ∙ served_found,
          unfold served_subject in refl,
        );
        in_flight = unfold held in ap (λ (x : Scheduler). x.in_flight) e;
        limit = unfold held in ap (λ (x : Scheduler). x.limit) e;
        paced = unfold held in ap (λ (x : Scheduler). x.paced) e;
        credit = unfold held in ap (λ (x : Scheduler). x.credit) e;
      }
