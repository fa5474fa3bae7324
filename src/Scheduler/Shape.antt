-- ===== src/Scheduler/Shape.antt =====
-- The counters, maps and rotors of the scheduler agree, and what the writes of the operations do to
-- that agreement.
use solace_broker_mcp.Common.{
  ℕ, ◌+◌, ◌≤◌, ◌≡◌, refl, ◌∙◌, String, none, some, arith, Option-cases, inl, inr, length, [], ◌∷◌,
  true, false, Bool-cases, ltb,
}
use solace_broker_mcp.Common.Assoc.{
  Assoc, All, find, put, del, sum_of, sum-put_old, sum-put_new, sum-del, put-All, le-sum_of,
  del-All,
}
use solace_broker_mcp.Scheduler.Rotor.{Rotor, insert, remove}
use solace_broker_mcp.Scheduler.State.{
  CallerKey, Session, Subject, Scheduler, no_session, no_subject, session_active, subject_active,
}
use solace_broker_mcp.Scheduler.Ops.{prune_subject, prune_session}
use solace_broker_mcp.Scheduler.Ringed.{
  Ringed, put_old-Ringed, put_new-Ringed, del-Ringed, empty-Ringed,
}

abbrev pub held : Session → ℕ
held cs = cs.in_flight

abbrev pub held_by : Subject → ℕ
held_by subj = subj.in_flight

pub record SubjectShape (subj : Subject) : Type 0 where
  pub ringed : Ringed subj.rotor subj.sessions
  pub total : subj.in_flight ≡ sum_of held subj.sessions

pub record Shape (r : Rotor) (m : Assoc Subject) (n : ℕ) : Type 0 where
  pub ringed : Ringed r m
  pub total : n ≡ sum_of held_by m
  pub each : All (λ k subj. SubjectShape subj) m

abbrev pub ShapeOf : Scheduler → Type 0
ShapeOf s = Shape s.rotor s.subjects s.in_flight

-- A session is written back with another number of slots.
pub put_session-SubjectShape :
    (subj : Subject) (name : String) (old new : Session) (n : ℕ)
    → SubjectShape subj
    → find name subj.sessions ≡ some old
    → n + held old ≡ subj.in_flight + held new
    → SubjectShape (record subj { in_flight = n; sessions = put name new subj.sessions })
put_session-SubjectShape subj name old new n h e c = record {
  ringed = put_old-Ringed subj.rotor subj.sessions h.ringed name new old e;
  total = omega (arith, sum-put_old held name old new subj.sessions e, h.total);
}

pub new_session-SubjectShape :
    (subj : Subject) (name : String)
    → SubjectShape subj
    → find name subj.sessions ≡ none
    → SubjectShape (record subj {
      sessions = put name no_session subj.sessions;
      rotor = insert subj.rotor name;
    })
new_session-SubjectShape subj name h e = record {
  ringed = put_new-Ringed subj.rotor subj.sessions h.ringed name no_session e;
  total = omega (arith, sum-put_new held name no_session subj.sessions e, h.total);
}

pub no_subject-SubjectShape : SubjectShape no_subject
unfolding sum_of
no_subject-SubjectShape = record { ringed = empty-Ringed Session; total = refl }

-- A subject is written back.
pub put_subject-Shape :
    (r : Rotor) (m : Assoc Subject) (n n' : ℕ) (name : String) (old new : Subject)
    → Shape r m n
    → find name m ≡ some old
    → SubjectShape new
    → n' + held_by old ≡ n + held_by new
    → Shape r (put name new m) n'
put_subject-Shape r m n n' name old new h e ok c = record {
  ringed = put_old-Ringed r m h.ringed name new old e;
  total = omega (arith, sum-put_old held_by name old new m e, h.total);
  each = put-All (λ _. SubjectShape) name new m h.each ok;
}

module _ (r : Rotor) (m : Assoc Subject) (n : ℕ) (name j : String) (subj : Subject)
    (cs : Session) where
  pub held-le :
      Shape r m n
      → find name m ≡ some subj
      → find j subj.sessions ≡ some cs
      → (held cs ≤ subj.in_flight) × (subj.in_flight ≤ n)
  held-le h e f = (
    omega (arith, le-sum_of held j cs subj.sessions f, (h.each name subj e).total),
    omega (arith, le-sum_of held_by name subj m e, h.total),
  )

  -- One session is written back, with the counts of its subject and of the whole.
  pub write_session-Shape :
      (new : Session) (n' k : ℕ)
      → Shape r m n
      → find name m ≡ some subj
      → find j subj.sessions ≡ some cs
      → k + held cs ≡ subj.in_flight + held new
      → n' + subj.in_flight ≡ n + k
      → Shape r (put name (record subj { in_flight = k; sessions = put j new subj.sessions }) m) n'
  write_session-Shape new n' k h e f c d =
      put_subject-Shape r m n n' name subj _ h e
        (put_session-SubjectShape subj j cs new k (h.each name subj e) f c) d

pub new_subject-Shape :
    (r : Rotor) (m : Assoc Subject) (n : ℕ) (name : String)
    → Shape r m n
    → find name m ≡ none
    → Shape (insert r name) (put name no_subject m) n
new_subject-Shape r m n name h e = record {
  ringed = put_new-Ringed r m h.ringed name no_subject e;
  total = omega (arith, sum-put_new held_by name no_subject m e, h.total);
  each = put-All (λ _. SubjectShape) name no_subject m h.each no_subject-SubjectShape;
}

-- A session or subject that holds no slot is deleted.
pub del_session-SubjectShape :
    (subj : Subject) (name : String) (cs : Session)
    → SubjectShape subj
    → find name subj.sessions ≡ some cs
    → held cs ≡ 0
    → SubjectShape
        (record subj { sessions = del name subj.sessions; rotor = remove subj.rotor name })
del_session-SubjectShape subj name cs h e z = record {
  ringed = del-Ringed subj.rotor subj.sessions h.ringed name;
  total = omega (arith, sum-del held name cs subj.sessions e, h.total);
}

pub del_subject-Shape :
    (r : Rotor) (m : Assoc Subject) (n : ℕ) (name : String) (subj : Subject)
    → Shape r m n
    → find name m ≡ some subj
    → held_by subj ≡ 0
    → Shape (remove r name) (del name m) n
del_subject-Shape r m n name subj h e z = record {
  ringed = del-Ringed r m h.ringed name;
  total = omega (arith, sum-del held_by name subj m e, h.total);
  each = del-All (λ _. SubjectShape) name m h.ringed.unique h.each;
}

pub sum_nothing : (f : Session → ℕ) (m : Assoc Session) → ltb 0 (length m) ≡ false → sum_of f m ≡ 0
unfolding sum_of
sum_nothing f [] h = refl
sum_nothing f (x ∷ m) h = ground arith

-- What `pruneSessionLocked` can do: nothing; delete the session; delete its subject as well.
abbrev pub without_session : Subject → CallerKey → Subject
without_session subj key = record subj {
  sessions = del key.session subj.sessions;
  rotor = remove subj.rotor key.session;
}

pub prune_session_cases {ℓ} :
    (P : Scheduler → Type ℓ) (s : Scheduler) (name : String) (key : CallerKey)
    → (((subj : Subject) (cs : Session)
          → find name s.subjects ≡ some subj
          → find key.session subj.sessions ≡ some cs
          → session_active cs ≡ true)
        → P s)
    → ((subj : Subject) (cs : Session)
        → find name s.subjects ≡ some subj
        → find key.session subj.sessions ≡ some cs
        → session_active cs ≡ false
        → subject_active (without_session subj key) ≡ true
        → P (record s { subjects = put name (without_session subj key) s.subjects }))
    → ((subj : Subject) (cs : Session)
        → find name s.subjects ≡ some subj
        → find key.session subj.sessions ≡ some cs
        → session_active cs ≡ false
        → subject_active (without_session subj key) ≡ false
        → P (record s { subjects = del name s.subjects; rotor = remove s.rotor name }))
    → P (prune_session s name key)
unfolding prune_session prune_subject
prune_session_cases P s name key keep drop_session drop_subject =
    elim (Option-cases (find name s.subjects)) [
      | inl e ↦ rw (e, prune_session) (keep (λ subj cs f g. cc))
      | inr (subj, e) ↦ elim (Option-cases (find key.session subj.sessions)) [
        | inl f ↦ rw (e, prune_session, f) (keep (λ subj' cs' e' f'. ground arith))
        | inr (cs, f) ↦ elim (Bool-cases (session_active cs)) [
          | inl a ↦ rw (e, prune_session, f, a) (keep (λ subj' cs' e' f'. ground arith))
          | inr a ↦ elim (Bool-cases (subject_active (without_session subj key))) [
            | inl b ↦ rw (e, prune_session, f, a, b) (drop_session subj cs e f a b)
            | inr b ↦ rw (e, prune_session, f, a, b) (drop_subject subj cs e f a b)
          ]
        ]
      ]
    ]

pub prune_session-Shape :
    (s : Scheduler) (name : String) (key : CallerKey)
    → ShapeOf s
    → ShapeOf (prune_session s name key)
unfolding session_active subject_active
prune_session-Shape s name key h =
    prune_session_cases ShapeOf s name key (λ _. h)
      (λ subj cs e f idle left.
        put_subject-Shape s.rotor s.subjects s.in_flight s.in_flight name subj
          (without_session subj key) h e
          (del_session-SubjectShape subj key.session cs (h.each name subj e) f (ground arith)) refl)
      (λ subj cs e f idle gone.
        let rest =
          del_session-SubjectShape subj key.session cs (h.each name subj e) f (ground arith) in
        del_subject-Shape s.rotor s.subjects s.in_flight name subj h e
          (rest.total ∙ sum_nothing held (del key.session subj.sessions) gone))
