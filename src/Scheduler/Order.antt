-- ===== src/Scheduler/Order.antt =====
-- Who is served: the scans pass over nobody who can be served, and follow the rotation.
use solace_broker_mcp.Common.{
  ℕ, zero, suc, ◌+◌, ◌≤◌, ◌<◌, ◌≡◌, ◌∙◌, String, List, [], ◌∷◌, none, some, arith, inl, inr, true,
  false, key_eq, Option-cases, length, get_elem?, ap, Bool-cases, ◌⊎◌, ◌==◌,
}
use solace_broker_mcp.Common.Assoc.{find, present, Assoc, any-of_find}
use solace_broker_mcp.Scheduler.Rotor.{Rotor, len, at}
use solace_broker_mcp.Scheduler.Rotor.Removal.{occ-rotate}
use solace_broker_mcp.Scheduler.Rotor.Members.{occ}
use solace_broker_mcp.Scheduler.Rotor.Rotation.{rotation, at-rotation, length-rotate}
use solace_broker_mcp.Scheduler.Ringed.{Ringed}
use solace_broker_mcp.Scheduler.State.{
  Session, Subject, Scheduler, is_queued, has_queued, eligible, session_eligible,
}
use solace_broker_mcp.Scheduler.Dispatch.{
  try_session, dequeue_from, dequeue, try_subject, grant_one,
}
use solace_broker_mcp.Scheduler.Valid.{Valid}
use solace_broker_mcp.Scheduler.Grants.{grant_from-none}

index-of_occ :
    (k : String) (xs : List String)
    → 0 < occ k xs
    → (i : ℕ) × (i < length xs) × (get_elem? xs i ≡ some k)
unfolding occ
index-of_occ k [] h = absurd (omega arith)
index-of_occ k (x ∷ xs) h = elim (key_eq x k) [
  | yes e ↦ (0, omega arith, ap some e)
  | no ne ↦ let (i, lt, g) = index-of_occ k xs (ground arith) in (suc i, omega arith, g)
]

-- A scan over all offsets meets every key of the map.
pub offset-of_find :
    {V : Type 0} (r : Rotor) (m : Assoc V) (k : String) (v : V)
    → Ringed r m
    → find k m ≡ some v
    → (o : ℕ) × (o < len r) × (at r o ≡ some k)
unfolding present
offset-of_find r m k v h e =
    let held : 0 < occ k (rotation r) = ground (arith, h.same k, occ-rotate k r.cursor r.keys) in
    let (o, lt, g) = index-of_occ k (rotation r) held in
    let o_lt : o < len r = omega (arith, length-rotate r.cursor r.keys) in
    let c_lt : r.cursor < len r = elim h.ring [ inl l ↦ l | inr z ↦ omega arith ] in
    (o, o_lt, at-rotation r o c_lt o_lt ∙ g)

dequeue_from-none :
    (s : Scheduler) (subj : Subject) (n i : ℕ)
    → dequeue_from s subj n i ≡ none
    → (k : ℕ) → i ≤ k
    → k < i + n
    → try_session s subj k ≡ none
unfolding dequeue_from
dequeue_from-none s subj zero i h k ik kj = absurd (omega arith)
dequeue_from-none s subj (suc n) i h k ik kj = elim (Option-cases (try_session s subj i)) [
  | inl e ↦ elim (Bool-cases (i == k)) [
    | inl same ↦ let here : i ≡ k = ground arith in rw (← here) e
    | inr other ↦
        dequeue_from-none s subj n (i + 1) (rw (e, dequeue_from) at h) k (ground arith)
          (omega arith)
  ]
  | inr (u, e) ↦ absurd (ground arith)
]

try_session-eligible :
    (s : Scheduler) (subj : Subject) (i : ℕ) (j : String) (cs : Session)
    → at subj.rotor i ≡ some j
    → find j subj.sessions ≡ some cs
    → is_queued cs ≡ true
    → try_session s subj i ≡ none
    → session_eligible s subj j cs ≡ false
unfolding try_session
try_session-eligible s subj i j cs place found queued h = ground arith

try_subject-dequeue :
    (s : Scheduler) (i : ℕ) (name : String) (subj : Subject)
    → at s.rotor i ≡ some name
    → find name s.subjects ≡ some subj
    → has_queued subj ≡ true
    → eligible s name subj ≡ true
    → try_subject s i ≡ none
    → dequeue s subj ≡ none
unfolding try_subject
try_subject-dequeue s i name subj place found queued allowed h = ground arith

-- When `grantOneLocked` makes no grant from a valid state, every session with a queue is held
-- back by a slot rule: its subject may not take a slot, or the session may not.
pub grant_one_conserves :
    (s : Scheduler) (name j : String) (subj : Subject) (cs : Session)
    → Valid s
    → grant_one s ≡ none
    → find name s.subjects ≡ some subj
    → find j subj.sessions ≡ some cs
    → is_queued cs ≡ true
    → (eligible s name subj ≡ false) ⊎ (session_eligible s subj j cs ≡ false)
unfolding grant_one has_queued dequeue
grant_one_conserves s name j subj cs v h e f queued = elim (Bool-cases (eligible s name subj)) [
  | inr no_slot ↦ inl no_slot
  | inl allowed ↦
      let (o, lt, place) = offset-of_find s.rotor s.subjects name subj v.inv.shape.ringed e in
      let (o', lt', place') =
        offset-of_find subj.rotor subj.sessions j cs (v.inv.shape.each name subj e).ringed f in
      let tried = grant_from-none s (len s.rotor) 0 h o (omega arith) (omega arith) in
      let empty =
        try_subject-dequeue s o name subj place e
          (any-of_find is_queued j cs subj.sessions f queued) allowed tried in
      inr (
        try_session-eligible s subj o' j cs place' f queued
          (dequeue_from-none s subj (len subj.rotor) 0 empty o' (omega arith) (omega arith)))
]
