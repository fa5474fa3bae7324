-- ===== src/Scheduler/Drain.antt =====
-- `drain`: the waiters that it releases, and what it leaves of the maps.
use solace_broker_mcp.Common.{
  ℕ, suc, ◌≤◌, ◌≡◌, ◌≢◌, refl, sym, ◌∙◌, ap, String, List, [], ◌∷◌, none, some, arith, inl, inr,
  if_cases, ◌⊎◌,
}
use solace_broker_mcp.Common.Assoc.{
  find, find-put_cases, find-del_cases, put, All, Assoc, Unique, find-put, find-del,
}
use solace_broker_mcp.Scheduler.State.{Waiter, Session, Subject, set_waiter, session_active}
use solace_broker_mcp.Scheduler.Dispatch.{
  failed, fail_all, drain_session, drain_sessions, fail_sessions,
}
use solace_broker_mcp.Scheduler.Shape.{
  SubjectShape, put_session-SubjectShape, del_session-SubjectShape,
}
use solace_broker_mcp.Scheduler.Queues.{SessionQueues, Waiting, Waiting-set}
use solace_broker_mcp.Scheduler.Valid.{closes-set}

-- Two sessions with different keys.
abbrev Apart : String → String → String → String → Type 0
Apart k j k' j' = k ≡ k' → j ≡ j' → ⊥

module _ (n : ℕ) (k j : String) where
  rest-Waiting :
      (h : ℕ → Waiter) (id : ℕ) (w : Waiter) (ids : List ℕ)
      → Waiting h n k j (suc id) ids
      → Waiting (set_waiter h id w) n k j (suc id) ids
  rest-Waiting h id w ids q =
      Waiting-set h n k j id w (suc id) n ids (omega arith) (λ x le lt p. omega arith) q

  -- Failing the waiters of one session leaves the queue of another as it is.
  fail_all-Waiting :
      (h : ℕ → Waiter) (lo : ℕ) (ids : List ℕ) (k' j' : String) (lo' : ℕ) (q : List ℕ)
      → Apart k j k' j'
      → Waiting h n k j lo ids
      → Waiting h n k' j' lo' q
      → Waiting (fail_all ids h) n k' j' lo' q
  unfolding fail_all
  fail_all-Waiting h lo [] k' j' lo' q apart w o = o
  fail_all-Waiting h lo (id ∷ ids) k' j' lo' q apart w o =
      fail_all-Waiting (set_waiter h id (failed (h id))) (suc id) ids k' j' lo' q apart
        (rest-Waiting h id _ ids w.3)
        (Waiting-set h n k' j' id _ lo' n q (omega arith)
          (λ x le lt p same.
            apart (sym w.2.0 ∙ ap (λ y. (h y).key.subject) (sym same) ∙ p.0)
              (sym w.2.1 ∙ ap (λ y. (h y).key.session) (sym same) ∙ p.1))
          o)

  fail_all-closes :
      (h : ℕ → Waiter) (lo : ℕ) (ids : List ℕ)
      → Waiting h n k j lo ids
      → ((i : ℕ) → (h i).closes ≤ 1)
      → (i : ℕ) → (fail_all ids h i).closes ≤ 1
  unfolding fail_all
  fail_all-closes h lo [] w c = c
  fail_all-closes h lo (id ∷ ids) w c =
      fail_all-closes (set_waiter h id (failed (h id))) (suc id) ids (rest-Waiting h id _ ids w.3)
        (closes-set h id _ (omega (arith, w.2.2)) c)

module _ (n : ℕ) (k : String) where
  -- The queues of the sessions that the loop has not reached.
  rest-queues :
      (h : ℕ → Waiter) (name : String) (cs : Session) (l : Assoc Session)
      → find name l ≡ none
      → SessionQueues h n k ((name, cs) ∷ l)
      → SessionQueues (fail_all cs.queue h) n k l
  unfolding find
  rest-queues h name cs l gone q j c f =
      let apart : name ≢ j = λ e. ground arith in
      fail_all-Waiting n k name h 0 cs.queue k j 0 c.queue (λ _ e. apart e)
        (q name cs (ground arith)) (q j c (ground arith))

  pub fail_sessions-Waiting :
      (l : Assoc Session) (h : ℕ → Waiter) (k' j' : String) (q : List ℕ)
      → Unique l
      → k ≢ k'
      → SessionQueues h n k l
      → Waiting h n k' j' 0 q
      → Waiting (fail_sessions l h) n k' j' 0 q
  unfolding fail_sessions find
  fail_sessions-Waiting [] h k' j' q u ne s w = w
  fail_sessions-Waiting ((name, cs) ∷ l) h k' j' q u ne s w =
      fail_sessions-Waiting l (fail_all cs.queue h) k' j' q u.1 ne (rest-queues h name cs l u.0 s) (
        fail_all-Waiting n k name h 0 cs.queue k' j' 0 q (λ e _. ne e) (s name cs (ground arith)) w)

  pub fail_sessions-closes :
      (l : Assoc Session) (h : ℕ → Waiter)
      → Unique l
      → SessionQueues h n k l
      → ((i : ℕ) → (h i).closes ≤ 1)
      → (i : ℕ) → (fail_sessions l h i).closes ≤ 1
  unfolding fail_sessions find
  fail_sessions-closes [] h u s c = c
  fail_sessions-closes ((name, cs) ∷ l) h u s c =
      fail_sessions-closes l (fail_all cs.queue h) u.1 (rest-queues h name cs l u.0 s)
        (fail_all-closes n k name h 0 cs.queue (s name cs (ground arith)) c)

-- What draining one session does to the map of its subject.
record Drains (subj : Subject) (name : String) (t : Subject) : Type 0 where
  shape : SubjectShape t
  same : t.in_flight ≡ subj.in_flight
  from :
      (j : String) (c : Session)
      → find j t.sessions ≡ some c
      → (c.queue ≡ []) ⊎ ((name ≢ j) × (find j subj.sessions ≡ some c))
  keeps :
      (j : String) (c : Session)
      → name ≢ j
      → find j subj.sessions ≡ some c
      → find j t.sessions ≡ some c

drain_session-Drains :
    (subj : Subject) (name : String) (cs : Session)
    → SubjectShape subj
    → find name subj.sessions ≡ some cs
    → Drains subj name (drain_session subj name cs)
unfolding drain_session
drain_session-Drains subj name cs h e =
    let empty : Session = record cs { queue = [] } in
    let shape : SubjectShape (record subj { sessions = put name empty subj.sessions }) =
      put_session-SubjectShape subj name cs empty subj.in_flight h e refl in
    let first : find name (put name empty subj.sessions) ≡ some empty =
      ground (arith, find-put name name empty subj.sessions) in
    if_cases (Drains subj name) (session_active empty) _ _
      (λ a. record {
        shape = shape;
        same = refl;
        from = λ j c f. elim (find-put_cases name j empty c subj.sessions f) [
          | inl (_, e') ↦ inl (rw (← e') refl)
          | inr (ne, f') ↦ inr (ne, f')
        ];
        keeps = λ j c ne f. ground (arith, find-put name j empty subj.sessions);
      })
      (λ a. record {
        shape =
            del_session-SubjectShape _ name empty shape first
              (unfold session_active in ground arith);
        same = refl;
        from = λ j c f.
            let (ne, f') = find-del_cases name j c _ shape.ringed.unique f in
            inr (ne, ground (arith, find-put name j empty subj.sessions));
        keeps = λ j c ne f.
            ground
              (arith, find-del name j _ shape.ringed.unique, find-put name j empty subj.sessions);
      })

-- The loop: what it has passed is empty, what it has not reached stands as it was.
pub drain_sessions-empty :
    (l : Assoc Session) (subj : Subject)
    → SubjectShape subj
    → Unique l
    → ((j : String) (c : Session) → find j l ≡ some c → find j subj.sessions ≡ some c)
    → ((j : String) (c : Session)
        → find j subj.sessions ≡ some c
        → (c.queue ≡ []) ⊎ (find j l ≡ some c))
    → SubjectShape (drain_sessions l subj)
      × ((drain_sessions l subj).in_flight ≡ subj.in_flight)
      × All (λ _ c. c.queue ≡ []) (drain_sessions l subj).sessions
unfolding drain_sessions find
drain_sessions-empty [] subj h u within outside =
    (h, refl, λ j c f. elim (outside j c f) [ inl e ↦ e | inr f' ↦ cc ])
drain_sessions-empty ((name, cs) ∷ l) subj h u within outside =
    let d = drain_session-Drains subj name cs h (within name cs (ground arith)) in
    let (a, b, c) =
      drain_sessions-empty l (drain_session subj name cs) d.shape u.1
        (λ j c f.
          let ne : name ≢ j = λ e. ground arith in d.keeps j c ne (within j c (ground arith)))
        (λ j c f. elim (d.from j c f) [
          | inl e ↦ inl e
          | inr (ne, f') ↦ elim (outside j c f') [ inl e ↦ inl e | inr g ↦ inr (ground arith) ]
        ]) in
    (a, b ∙ d.same, c)
