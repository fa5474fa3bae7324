-- ===== src/Scheduler/Settling.antt =====
-- A waiter is settled once; and how the slots are shared out.
use solace_broker_mcp.Common.{
  ℕ, zero, suc, ◌%◌, ◌+◌, ◌-◌, ◌*◌, ◌/◌, ◌≤◌, ◌<◌, ◌≡◌, refl, ap, true, arith, if_cases, not, ◌||◌,
  ◌⊎◌, inl, subst, ltb, inr, length, if◌then◌else◌,
}
use solace_broker_mcp.Scheduler.State.{
  Scheduler, Subject, set_waiter, share, subject_ceiling, session_ceiling,
}
use solace_broker_mcp.Scheduler.Ops.{abandon, release, release_locked, resolve}
use solace_broker_mcp.Scheduler.Valid.{release_locked-waiters, remove_from_queue-waiters}

-- A call on a waiter that is settled changes nothing.
settled_calls :
    (s : Scheduler) (id : ℕ)
    → (s.waiters id).resolved ≡ true
    → (release s id ≡ s) × (abandon s id ≡ s)
unfolding release abandon
settled_calls s id h = rw h (refl, refl)

pub hand_back-settles :
    (s : Scheduler) (id : ℕ)
    → (((release_locked (resolve s id) (s.waiters id).key)).waiters id).resolved ≡ true
unfolding set_waiter
hand_back-settles s id =
    rw (release_locked-waiters (resolve s id) (s.waiters id).key) (ground arith)

releases_settle :
    (s : Scheduler) (id : ℕ) → (release s id ≡ s) ⊎ (((release s id).waiters id).resolved ≡ true)
unfolding release
releases_settle s id =
    if_cases (λ (t : Scheduler). (t ≡ s) ⊎ ((t.waiters id).resolved ≡ true))
      ((s.waiters id).resolved || not (s.waiters id).granted) _ _ (λ e. inl refl)
      (λ _. inr (hand_back-settles s id))

pub abandons_settle : (s : Scheduler) (id : ℕ) → ((abandon s id).waiters id).resolved ≡ true
unfolding abandon set_waiter
abandons_settle s id =
    if_cases (λ (t : Scheduler). (t.waiters id).resolved ≡ true) (s.waiters id).resolved _ _
      (λ e. e)
      (λ _.
        if_cases (λ (t : Scheduler). (t.waiters id).resolved ≡ true) (s.waiters id).granted _ _
          (λ _. hand_back-settles s id)
          (λ _. rw (remove_from_queue-waiters (resolve s id) id) (ground arith)))

-- A waiter gives its slot back once: after `Abandon`, another `Abandon` or `Release` of it
-- changes nothing, and after `Release`, another `Release` changes nothing.
pub settles_once :
    (s : Scheduler) (id : ℕ)
    → (abandon (abandon s id) id ≡ abandon s id)
      × (release (abandon s id) id ≡ abandon s id)
      × (release (release s id) id ≡ release s id)
settles_once s id =
    let (a, b) = settled_calls (abandon s id) id (abandons_settle s id) in
    (
      b,
      a,
      elim (releases_settle s id) [
        | inl e ↦ ap (λ t. release t id) e
        | inr e ↦ (settled_calls (release s id) id e).0
      ],
    )

round_up :
    (total parts c r : ℕ)
    → 1 ≤ parts
    → r < parts
    → parts * c + r ≡ total + parts - 1
    → (total ≤ c * parts) × ((c ≤ 1) ⊎ ((c - 1) * parts < total))
round_up total parts zero r h lt e = (omega (arith, e), inl (omega arith))
round_up total parts (suc c) r h lt e =
    let a : (suc c) * parts ≡ c * parts + parts = omega arith in
    let b : parts * suc c ≡ c * parts + parts = omega arith in
    let d : (suc c - 1) * parts ≡ c * parts = ap (λ k. k * parts) (omega arith) in
    (omega (arith, a, b, e, lt), inr (omega (arith, b, d, e, lt)))

abbrev pub Shares : ℕ → ℕ → ℕ → Type 0
Shares total parts c = (1 ≤ c) × (total ≤ c * parts) × ((c ≡ 1) ⊎ ((c - 1) * parts < total))

small_share : (total parts c : ℕ) → 1 ≤ parts → total ≤ c * parts → c ≡ 0 → Shares total parts 1
small_share total parts c h a z =
    let b : total ≤ 0 * parts = subst (λ k. total ≤ k * parts) z a in
    (omega arith, omega (arith, b), inl refl)

large_share :
    (total parts c : ℕ)
    → total ≤ c * parts
    → (c ≤ 1) ⊎ ((c - 1) * parts < total)
    → 1 ≤ c
    → Shares total parts c
large_share total parts c a (inl b) h = (h, a, inl (omega arith))
large_share total parts c a (inr b) h = (h, a, inr b)

-- For at least one part, `share` is at least 1, that many for each part cover the total, and one
-- less would not (unless the share is 1).
pub share_bounds : (total parts : ℕ) → 1 ≤ parts → Shares total parts (share total parts)
unfolding share
share_bounds total parts h =
    if_cases (λ n. Shares total parts (let c = (total + n - 1) / n in if ltb c 1 then 1 else c))
      (ltb parts 1) _ _ (λ e. absurd (ground arith))
      (λ _.
        let c : ℕ = (total + parts - 1) / parts in
        let (a, b) =
          round_up total parts c ((total + parts - 1) % parts) h (omega (arith, h)) (omega arith) in
        if_cases (Shares total parts) (ltb c 1) _ _
          (λ e. small_share total parts c h a (ground arith))
          (λ e. large_share total parts c a b (ground arith)))

-- With a limit of at least one slot, a session that is its subject's only one, in a scheduler
-- with no other subject, may use the whole limit.
pub alone_ceiling :
    (s : Scheduler) (subj : Subject)
    → 1 ≤ s.limit
    → length s.subjects ≡ 1
    → length subj.sessions ≡ 1
    → (subject_ceiling s ≡ s.limit) × (session_ceiling s subj ≡ s.limit)
unfolding subject_ceiling session_ceiling share
alone_ceiling s subj h a b = ground arith
