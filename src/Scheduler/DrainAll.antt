-- ===== src/Scheduler/DrainAll.antt =====
-- `drain` over all subjects keeps the invariant and leaves no queue.
use solace_broker_mcp.Common.{
  ℕ, ◌≤◌, ◌≡◌, ◌≢◌, sym, ◌∙◌, String, [], ◌∷◌, some, arith, inl, inr, if_cases, ◌⊎◌, subst,
}
use solace_broker_mcp.Common.Assoc.{
  find, find-put_cases, find-del_cases, All, Assoc, Unique, put-All_ne, find-put, find-del,
}
use solace_broker_mcp.Scheduler.State.{Waiter, Session, Subject, Scheduler, subject_active}
use solace_broker_mcp.Scheduler.Dispatch.{
  drain_sessions, fail_sessions, drain_subject, drain_subjects, drain,
}
use solace_broker_mcp.Scheduler.Shape.{
  SubjectShape, put_subject-Shape, del_subject-Shape, sum_nothing, held,
}
use solace_broker_mcp.Scheduler.Queues.{Waiting}
use solace_broker_mcp.Scheduler.Valid.{Valid}
use solace_broker_mcp.Scheduler.Drain.{
  fail_sessions-Waiting, fail_sessions-closes, drain_sessions-empty,
}

abbrev pub NoQueue : Subject → Type 0
NoQueue subj = All (λ _ c. c.queue ≡ []) subj.sessions

record DrainsSubject (s : Scheduler) (name : String) (t : Scheduler) : Type 0 where
  valid : Valid t
  from :
      (k : String) (x : Subject)
      → find k t.subjects ≡ some x
      → NoQueue x ⊎ ((name ≢ k) × (find k s.subjects ≡ some x))
  keeps :
      (k : String) (x : Subject)
      → name ≢ k
      → find k s.subjects ≡ some x
      → find k t.subjects ≡ some x

module _ (s : Scheduler) (v : Valid s) (name : String) (subj : Subject)
    (e : find name s.subjects ≡ some subj) where
  after : Subject
  after = drain_sessions subj.sessions subj

  after-facts : SubjectShape after × (after.in_flight ≡ subj.in_flight) × NoQueue after
  unfolding after
  after-facts =
      let h = v.inv.shape.each name subj e in
      drain_sessions-empty subj.sessions subj h h.ringed.unique (λ j c f. f) (λ j c f. inr f)

  heap : ℕ → Waiter
  heap = fail_sessions subj.sessions s.waiters

  other_queues :
      (k : String) (x : Subject)
      → name ≢ k
      → find k s.subjects ≡ some x
      → (j : String) (c : Session) → find j x.sessions ≡ some c
      → Waiting heap s.next_id k j 0 c.queue
  unfolding heap
  other_queues k x ne f j c g =
      fail_sessions-Waiting s.next_id name subj.sessions s.waiters k j c.queue
        (v.inv.shape.each name subj e).ringed.unique ne (v.queues name subj e)
        (v.queues k x f j c g)

  heap-closes : (i : ℕ) → (heap i).closes ≤ 1
  unfolding heap
  heap-closes =
      fail_sessions-closes s.next_id name subj.sessions s.waiters
        (v.inv.shape.each name subj e).ringed.unique (v.queues name subj e) v.closed_once

  drain_subject-Drains : DrainsSubject s name (drain_subject s name subj)
  unfolding drain_subject after heap
  drain_subject-Drains =
      if_cases (DrainsSubject s name) (subject_active after) _ _
        (λ a. record {
          valid = record {
            inv = record {
              shape =
                  put_subject-Shape s.rotor s.subjects s.in_flight s.in_flight name subj after
                    v.inv.shape e after-facts.0 (omega (arith, after-facts.1));
              slots = v.inv.slots;
              fits = v.inv.fits;
              capped = v.inv.capped;
            };
            queues =
                put-All_ne _ name after s.subjects (λ k x ne f. other_queues k x ne f)
                  (λ j c f. subst (Waiting heap s.next_id name j 0) (sym (after-facts.2 j c f)) tt);
            closed_once = heap-closes;
          };
          from = λ k x f. elim (find-put_cases name k after x s.subjects f) [
            | inl (_, e') ↦ inl (subst NoQueue e' after-facts.2)
            | inr (ne, f') ↦ inr (ne, f')
          ];
          keeps = λ k x ne f. ground (arith, find-put name k after s.subjects);
        })
        (λ a. record {
          valid = record {
            inv = record {
              shape = del_subject-Shape s.rotor s.subjects s.in_flight name subj v.inv.shape e (
                  sym after-facts.1
                  ∙ after-facts.0.total
                  ∙ sum_nothing held after.sessions (unfold subject_active in a));
              slots = v.inv.slots;
              fits = v.inv.fits;
              capped = v.inv.capped;
            };
            queues = λ k x f.
                let (ne, f') = find-del_cases name k x s.subjects v.inv.shape.ringed.unique f in
                other_queues k x ne f';
            closed_once = heap-closes;
          };
          from = λ k x f. inr (find-del_cases name k x s.subjects v.inv.shape.ringed.unique f);
          keeps = λ k x ne f. ground (arith, find-del name k s.subjects v.inv.shape.ringed.unique);
        })

drain_subjects-Valid :
    (l : Assoc Subject) (s : Scheduler)
    → Valid s
    → Unique l
    → ((k : String) (x : Subject) → find k l ≡ some x → find k s.subjects ≡ some x)
    → ((k : String) (x : Subject) → find k s.subjects ≡ some x → NoQueue x ⊎ (find k l ≡ some x))
    → Valid (drain_subjects l s) × All (λ _ x. NoQueue x) (drain_subjects l s).subjects
unfolding drain_subjects find
drain_subjects-Valid [] s v u within outside =
    (v, λ k x f. elim (outside k x f) [ inl e ↦ e | inr f' ↦ cc ])
drain_subjects-Valid ((name, subj) ∷ l) s v u within outside =
    let d = drain_subject-Drains s v name subj (within name subj (ground arith)) in
    drain_subjects-Valid l (drain_subject s name subj) d.valid u.1
      (λ k x f. let ne : name ≢ k = λ e. ground arith in d.keeps k x ne (within k x (ground arith)))
      (λ k x f. elim (d.from k x f) [
        | inl e ↦ inl e
        | inr (ne, f') ↦ elim (outside k x f') [ inl e ↦ inl e | inr g ↦ inr (ground arith) ]
      ])

-- Draining a valid state leads to a valid state in which no session has a request in its queue.
pub drain-Valid :
    (s : Scheduler) → Valid s → Valid (drain s) × All (λ _ x. NoQueue x) (drain s).subjects
unfolding drain
drain-Valid s v =
    drain_subjects-Valid s.subjects s v v.inv.shape.ringed.unique (λ k x f. f) (λ k x f. inr f)
