-- ===== src/Scheduler/Queues.antt =====
-- The queues of the scheduler: who waits in them, and in which order.
use solace_broker_mcp.Common.{
  ℕ, suc, ◌+◌, ◌≤◌, ◌<◌, ◌≡◌, ◌≢◌, String, List, [], ◌∷◌, ◌++◌, some, arith, true, false,
  ℕ_discrete, if_pos, if_neg,
}
use solace_broker_mcp.Common.Assoc.{find, All, Assoc, put-All, put-All_ne, del-All}
use solace_broker_mcp.Scheduler.State.{CallerKey, Waiter, Session, Subject, Scheduler, set_waiter}
use solace_broker_mcp.Scheduler.Ops.{
  prune_session, release_locked, remove_from_queue, resolve, drop_id,
}
use solace_broker_mcp.Scheduler.Shape.{ShapeOf, prune_session_cases, without_session}
use solace_broker_mcp.Scheduler.Cases.{queue_without, release_locked_cases, remove_from_queue_cases}
use solace_broker_mcp.Scheduler.Invariant.{
  Inv, slot_back-Inv, queue_without-Inv, resolve-Inv, hand_back,
}

-- A waiter of this session that nobody has answered.
abbrev pub Pending : Waiter → String → String → Type 0
Pending w k j =
    (w.key.subject ≡ k)
    × (w.key.session ≡ j)
    × (w.closes ≡ 0)
    × (w.granted ≡ false)
    × (w.resolved ≡ false)

-- The queue of a session holds pending waiters of that session, from the lowest number on in the
-- order of their calls of `Enqueue`.
abbrev pub Waiting : (ℕ → Waiter) → ℕ → String → String → ℕ → List ℕ → Type 0
Waiting h n k j lo [] = Unit
Waiting h n k j lo (id ∷ ids) =
    (lo ≤ id) × (id < n) × Pending (h id) k j × Waiting h n k j (suc id) ids

pub Waiting-mono :
    (h : ℕ → Waiter) (n : ℕ) (k j : String) (lo lo' : ℕ) (q : List ℕ)
    → lo' ≤ lo
    → Waiting h n k j lo q
    → Waiting h n k j lo' q
Waiting-mono h n k j lo lo' [] le w = tt
Waiting-mono h n k j lo lo' (id ∷ ids) le w = (omega arith, w.1, w.2, w.3)

module _ (h : ℕ → Waiter) (n : ℕ) (k j : String) where
  pub Waiting-set :
      (id : ℕ) (v : Waiter) (lo n' : ℕ) (q : List ℕ)
      → n ≤ n'
      → ((i : ℕ) → lo ≤ i → i < n → Pending (h i) k j → i ≢ id)
      → Waiting h n k j lo q
      → Waiting (set_waiter h id v) n' k j lo q
  unfolding set_waiter
  Waiting-set id v lo n' [] le avoid w = tt
  Waiting-set id v lo n' (i ∷ ids) le avoid w =
      let ne : i ≢ id = avoid i w.0 w.1 w.2 in
      let same : set_waiter h id v i ≡ h i = ground arith in
      (
        w.0,
        omega (arith, w.1),
        rw same w.2,
        Waiting-set id v (suc i) n' ids le (λ x a b c. avoid x (omega (arith, w.0)) b c) w.3,
      )

  pub Waiting-snoc :
      (lo : ℕ) (q : List ℕ)
      → lo ≤ n
      → Pending (h n) k j
      → Waiting h n k j lo q
      → Waiting h (n + 1) k j lo (q ++ n ∷ [])
  Waiting-snoc lo [] le p w = (le, omega arith, p, tt)
  Waiting-snoc lo (i ∷ ids) le p w =
      (w.0, omega (arith, w.1), w.2, Waiting-snoc (suc i) ids (omega (arith, w.1)) p w.3)

  pub Waiting-drop :
      (id : ℕ) (v : Waiter) (lo : ℕ) (q : List ℕ)
      → Waiting h n k j lo q
      → Waiting (set_waiter h id v) n k j lo (drop_id id q)
  unfolding set_waiter drop_id
  Waiting-drop id v lo [] w = tt
  Waiting-drop id v lo (i ∷ ids) w = elim (ℕ_discrete i id) [
    | yes e ↦ rw (if_pos _ e) (
        Waiting-mono (set_waiter h id v) n k j (suc i) lo ids (omega (arith, w.0))
          (Waiting-set id v (suc i) n ids (omega arith) (λ x a b c. omega arith) w.3))
    | no ne ↦
        let same : set_waiter h id v i ≡ h i = ground arith in
        rw (if_neg _ ne) (w.0, w.1, rw same w.2, Waiting-drop id v (suc i) ids w.3)
  ]

abbrev pub SessionQueues : (ℕ → Waiter) → ℕ → String → Assoc Session → Type 0
SessionQueues h n k = All (λ j cs. Waiting h n k j 0 cs.queue)

abbrev pub Queues : (ℕ → Waiter) → ℕ → Assoc Subject → Type 0
Queues h n = All (λ k subj. SessionQueues h n k subj.sessions)

abbrev pub QueuesOf : Scheduler → Type 0
QueuesOf s = Queues s.waiters s.next_id s.subjects

-- Pruning takes out sessions and subjects, and adds nothing.
pub prune_session-Queues :
    (s : Scheduler) (name : String) (key : CallerKey)
    → ShapeOf s
    → QueuesOf s
    → QueuesOf (prune_session s name key)
prune_session-Queues s name key sh q =
    prune_session_cases QueuesOf s name key (λ _. q)
      (λ subj cs e f a b.
        put-All _ name (without_session subj key) s.subjects q
          (del-All _ key.session subj.sessions (sh.each name subj e).ringed.unique (q name subj e)))
      (λ subj cs e f a b. del-All _ name s.subjects sh.ringed.unique q)

-- A write to the waiter `id` when it waits in no queue.
pub Queues-set :
    (h : ℕ → Waiter) (n n' id : ℕ) (v : Waiter) (m : Assoc Subject)
    → n ≤ n'
    → ((i : ℕ) (k j : String) → i < n → Pending (h i) k j → i ≢ id)
    → Queues h n m
    → Queues (set_waiter h id v) n' m
Queues-set h n n' id v m le avoid q k subj e j cs f =
    Waiting-set h n k j id v 0 n' cs.queue le (λ i _ lt p. avoid i k j lt p) (q k subj e j cs f)

module _ (s : Scheduler) (v : Inv s) (q : QueuesOf s) where
  release_locked-Queues : (key : CallerKey) → QueuesOf (release_locked s key)
  release_locked-Queues key = release_locked_cases QueuesOf s key q (λ subj cs e f pos.
      prune_session-Queues _ _ key (slot_back-Inv s v key subj cs e f pos).shape (
        put-All _ key.subject _ s.subjects q (
          put-All _ key.session _ subj.sessions (q key.subject subj e)
            (q key.subject subj e key.session cs f))))

module _ (s : Scheduler) (id : ℕ) (v : Inv s) (q : QueuesOf s) where
  -- A waiter that holds a slot, or gave one back, waits in no queue.
  answered-Queues : (s.waiters id).granted ≡ true → QueuesOf (resolve s id)
  answered-Queues g =
      Queues-set s.waiters s.next_id s.next_id id _ s.subjects (omega arith)
        (λ i k j lt p same. let e : (s.waiters i).granted ≡ true = rw same g in cc) q

  pub hand_back-Queues : (s.waiters id).granted ≡ true → QueuesOf (hand_back s id v)
  unfolding hand_back
  hand_back-Queues g = release_locked-Queues _ (resolve-Inv s id v) (answered-Queues g) _

  set_same : (resolve s id).waiters id ≡ record (s.waiters id) { resolved = true }
  unfolding set_waiter
  set_same = ground arith

  -- Outside the session of `id`, no queue holds it.
  elsewhere :
      (k j : String) (cs : Session)
      → Waiting s.waiters s.next_id k j 0 cs.queue
      → ((s.waiters id).key.subject ≡ k → (s.waiters id).key.session ≡ j → ⊥)
      → Waiting (resolve s id).waiters s.next_id k j 0 cs.queue
  elsewhere k j cs w other =
      Waiting-set s.waiters s.next_id k j id _ 0 s.next_id cs.queue (omega arith)
        (λ i _ lt p same. other (rw (← same) p.0) (rw (← same) p.1)) w

  pub remove-Queues : QueuesOf (remove_from_queue (resolve s id) id)
  remove-Queues =
      remove_from_queue_cases QueuesOf (resolve s id) id
        (λ missing k subj e j cs f.
          elsewhere k j cs (q k subj e j cs f)
            (λ p r. missing subj cs (rw (set_same, p) e) (rw (set_same, r) f)))
        (λ subj cs e f.
          let e' : find (s.waiters id).key.subject s.subjects ≡ some subj = rw set_same at e in
          let f' : find (s.waiters id).key.session subj.sessions ≡ some cs = rw set_same at f in
          prune_session-Queues _ _ _
            (queue_without-Inv _ (resolve-Inv s id v) id _ subj cs e f).shape
            (rw set_same (taken subj cs e' f')))
    where
      taken :
          (subj : Subject) (cs : Session)
          → find (s.waiters id).key.subject s.subjects ≡ some subj
          → find (s.waiters id).key.session subj.sessions ≡ some cs
          → Queues
              (resolve s id).waiters
              s.next_id
              (queue_without s id (s.waiters id).key subj cs).subjects
      taken subj cs e f =
          put-All_ne _ (s.waiters id).key.subject _ s.subjects
            (λ k subj' ne e' j cs' f'. elsewhere k j cs' (q k subj' e' j cs' f') (λ p r. ne p))
            (put-All_ne _ (s.waiters id).key.session _ subj.sessions
              (λ j cs' ne f'. elsewhere _ j cs' (q _ subj e j cs' f') (λ p r. ne r))
              (Waiting-drop s.waiters s.next_id _ _ id _ 0 cs.queue (q _ subj e _ cs f)))
