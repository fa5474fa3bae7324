-- ===== src/Scheduler/Valid.antt =====
-- The invariant of the scheduler as a whole, and the calls of other goroutines.
use solace_broker_mcp.Common.{
  ℕ, ◌+◌, ◌≤◌, ◌≡◌, refl, String, List, [], ◌∷◌, ◌++◌, arith, inl, inr, Option-cases, if_cases, not,
  ◌||◌,
}
use solace_broker_mcp.Common.Assoc.{find, Assoc, put-All, nil-All}
use solace_broker_mcp.Scheduler.State.{
  CallerKey, Waiter, Session, Subject, Scheduler, set_waiter, new_waiter, no_session, no_subject,
}
use solace_broker_mcp.Scheduler.Ops.{
  enqueue, abandon, release, resolve, release_locked, remove_from_queue, enter_subject,
  enter_session,
}
use solace_broker_mcp.Scheduler.Cases.{release_locked_cases, remove_from_queue_cases}
use solace_broker_mcp.Scheduler.Invariant.{
  Inv, prune_session-Keeps, hand_back, enqueue-Inv, abandon-Inv, release-Inv,
}
use solace_broker_mcp.Scheduler.Queues.{
  Queues, QueuesOf, SessionQueues, Waiting, Waiting-set, Waiting-snoc, Queues-set, hand_back-Queues,
  remove-Queues,
}

-- No channel `ready` was closed twice.
abbrev pub ClosedOnce : Scheduler → Type 0
ClosedOnce s = (id : ℕ) → (s.waiters id).closes ≤ 1

pub record Valid (s : Scheduler) : Type 0 where
  pub inv : Inv s
  pub queues : QueuesOf s
  pub closed_once : ClosedOnce s

pub closes-set :
    (h : ℕ → Waiter) (id : ℕ) (w : Waiter)
    → w.closes ≤ 1
    → ((i : ℕ) → (h i).closes ≤ 1)
    → (i : ℕ) → (set_waiter h id w i).closes ≤ 1
unfolding set_waiter
closes-set h id w one all i = ground (arith, all i)

pub release_locked-waiters :
    (s : Scheduler) (key : CallerKey) → (release_locked s key).waiters ≡ s.waiters
release_locked-waiters s key =
    release_locked_cases (λ t. t.waiters ≡ s.waiters) s key refl
      (λ subj cs e f pos. (prune_session-Keeps _ key.subject key).waiters)

pub remove_from_queue-waiters :
    (s : Scheduler) (id : ℕ) → (remove_from_queue s id).waiters ≡ s.waiters
remove_from_queue-waiters s id =
    remove_from_queue_cases (λ t. t.waiters ≡ s.waiters) s id (λ _. refl)
      (λ subj cs e f. (prune_session-Keeps _ _ _).waiters)

module _ (s : Scheduler) (id : ℕ) (v : Valid s) where
  resolve-ClosedOnce : ClosedOnce (resolve s id)
  resolve-ClosedOnce = closes-set s.waiters id _ (v.closed_once id) v.closed_once

  hand_back-ClosedOnce : ClosedOnce (hand_back s id v.inv)
  unfolding hand_back
  hand_back-ClosedOnce i =
      rw (release_locked-waiters (resolve s id) (s.waiters id).key) (resolve-ClosedOnce i)

  pub abandon-Valid : Valid (abandon s id)
  unfolding abandon hand_back
  abandon-Valid = record {
    inv = abandon-Inv s id v.inv;
    queues =
        if_cases QueuesOf (s.waiters id).resolved _ _ (λ _. v.queues)
          (λ _.
            if_cases QueuesOf (s.waiters id).granted _ _
              (λ g. hand_back-Queues s id v.inv v.queues g)
              (λ _. remove-Queues s id v.inv v.queues));
    closed_once =
        if_cases ClosedOnce (s.waiters id).resolved _ _ (λ _. v.closed_once)
          (λ _.
            if_cases ClosedOnce (s.waiters id).granted _ _ (λ _. hand_back-ClosedOnce)
              (λ _ i. rw (remove_from_queue-waiters (resolve s id) id) (resolve-ClosedOnce i)));
  }

  pub release-Valid : Valid (release s id)
  unfolding release hand_back
  release-Valid = record {
    inv = release-Inv s id v.inv;
    queues =
        if_cases QueuesOf ((s.waiters id).resolved || not (s.waiters id).granted) _ _
          (λ _. v.queues) (λ g. hand_back-Queues s id v.inv v.queues (ground arith));
    closed_once =
        if_cases ClosedOnce ((s.waiters id).resolved || not (s.waiters id).granted) _ _
          (λ _. v.closed_once) (λ _. hand_back-ClosedOnce);
  }

-- The queue of a caller before the new waiter is added.
enter_session-queues :
    (h : ℕ → Waiter) (n : ℕ) (k : String) (subj : Subject) (name : String)
    → SessionQueues h n k subj.sessions
    → SessionQueues h n k (enter_session subj name).0.sessions
      × Waiting h n k name 0 (enter_session subj name).1.queue
unfolding enter_session
enter_session-queues h n k subj name q = elim (Option-cases (find name subj.sessions)) [
  | inr (cs, e) ↦ rw (e, enter_session) (q, q name cs e)
  | inl e ↦ rw (e, enter_session) (put-All _ name no_session subj.sessions q tt, tt)
]

enter_subject-Queues :
    (s : Scheduler) (name : String)
    → QueuesOf s
    → Queues s.waiters s.next_id (enter_subject s name).0.subjects
      × SessionQueues s.waiters s.next_id name (enter_subject s name).1.sessions
unfolding enter_subject
enter_subject-Queues s name q = elim (Option-cases (find name s.subjects)) [
  | inr (subj, e) ↦ rw (e, enter_subject) (q, q name subj e)
  | inl e ↦ rw (e, enter_subject) (put-All _ name no_subject s.subjects q (nil-All _), nil-All _)
]

module _ (s : Scheduler) (key : CallerKey) (v : Valid s) where
  -- A write to the waiter that comes next touches no queue.
  fresh :
      (w : Waiter) (m : Assoc Subject)
      → Queues s.waiters s.next_id m
      → Queues (set_waiter s.waiters s.next_id w) (s.next_id + 1) m
  fresh w m =
      Queues-set s.waiters s.next_id (s.next_id + 1) s.next_id w m (omega arith)
        (λ i k j lt p. omega arith)

  fresh_sessions :
      (w : Waiter) (k : String) (m : Assoc Session)
      → SessionQueues s.waiters s.next_id k m
      → SessionQueues (set_waiter s.waiters s.next_id w) (s.next_id + 1) k m
  fresh_sessions w k m q j cs f =
      Waiting-set s.waiters s.next_id k j s.next_id w 0 (s.next_id + 1) cs.queue (omega arith)
        (λ i _ lt p. omega arith) (q j cs f)

  joined :
      (w : Waiter) (q : List ℕ)
      → w ≡ new_waiter key
      → Waiting s.waiters s.next_id key.subject key.session 0 q
      → Waiting
          (set_waiter s.waiters s.next_id w)
          (s.next_id + 1)
          key.subject
          key.session
          0
          (q ++ s.next_id ∷ [])
  unfolding set_waiter new_waiter
  joined w q e h =
      Waiting-snoc (set_waiter s.waiters s.next_id w) s.next_id key.subject key.session 0 q
        (omega arith) (ground arith)
        (Waiting-set s.waiters s.next_id key.subject key.session s.next_id w 0 s.next_id q
          (omega arith) (λ i _ lt p. omega arith) h)

  pub enqueue-Valid : Valid (enqueue s key).0
  unfolding enqueue new_waiter
  enqueue-Valid =
      let (q, here) = enter_subject-Queues s key.subject v.queues in
      let (q', waits) =
        enter_session-queues s.waiters s.next_id key.subject (enter_subject s key.subject).1
          key.session here in
      record {
        inv = enqueue-Inv s key v.inv;
        queues =
            if_cases QueuesOf s.stopped _ _ (λ _. fresh _ s.subjects v.queues)
              (λ _.
                put-All _ key.subject _ (enter_subject s key.subject).0.subjects
                  (fresh _ (enter_subject s key.subject).0.subjects q)
                  (put-All _ key.session _
                    (enter_session (enter_subject s key.subject).1 key.session).0.sessions
                    (fresh_sessions _ key.subject _ q') (joined _ _ refl waits)));
        closed_once =
            if_cases ClosedOnce s.stopped _ _
              (λ _. closes-set s.waiters s.next_id _ (omega arith) v.closed_once)
              (λ _. closes-set s.waiters s.next_id _ (omega arith) v.closed_once);
      }
