-- ===== src/Scheduler/Fairness.antt =====
-- The order of grants, the slot rules that each grant respects, and the end of the grant loop.
use solace_broker_mcp.Common.{
  ℕ, zero, suc, ◌+◌, ◌-◌, ◌≤◌, ◌<◌, ◌≡◌, refl, sym, ◌∙◌, String, none, some, arith, inl, inr, true,
  ◌⊎◌, false, Option-cases, if_cases, get_elem?, not,
}
use solace_broker_mcp.Common.Assoc.{find}
use solace_broker_mcp.Scheduler.Rotor.{len}
use solace_broker_mcp.Scheduler.Rotor.Rotation.{
  rotate, rotation, at-rotation, rotation-advance_past,
}
use solace_broker_mcp.Scheduler.State.{
  Subject, Scheduler, eligible, subject_ceiling, has_starved_subject,
}
use solace_broker_mcp.Scheduler.Dispatch.{
  try_subject, grant_one, grant_all, dispatch_locked, on_tick,
}
use solace_broker_mcp.Scheduler.Valid.{Valid}
use solace_broker_mcp.Scheduler.Grants.{grant_one-Grants, dequeue-Dequeues}
use solace_broker_mcp.Scheduler.Admission.{admit-Admitted, eligible-free}
use solace_broker_mcp.Scheduler.Reachable.{grant_one-Valid, set_flags}

-- What a grant of `grantOneLocked` does: `place` is where its subject stood in the rotation.
pub record Turn (s t : Scheduler) (place : ℕ) (name : String) (subj : Subject) : Type 0 where
  pub within : place < len s.rotor
  pub next_served : get_elem? (rotation s.rotor) place ≡ some name
  pub passed_over : (k : ℕ) → k < place → try_subject s k ≡ none
  pub turned : rotation t.rotor ≡ rotate (place + 1) (rotation s.rotor)
  pub one_slot : t.in_flight ≡ s.in_flight + 1
  pub same_limit : t.limit ≡ s.limit
  pub same_credit : t.credit ≡ s.credit
  pub served : find name s.subjects ≡ some subj
  pub allowed : eligible s name subj ≡ true
  pub charged : (x : Subject) × (find name t.subjects ≡ some x) × (x.in_flight ≡ subj.in_flight + 1)

-- Round robin: from a valid state, a grant goes to the first subject of the rotation that can be
-- served, takes one slot for that subject and in total, and leaves the rotation turned to the
-- entry behind that subject.
pub grant_one-Turn :
    (s t : Scheduler)
    → Valid s
    → grant_one s ≡ some t
    → (place : ℕ) × (name : String) × (subj : Subject) × Turn s t place name subj
grant_one-Turn s t v h =
    let (i, lt, g, before) = grant_one-Grants s t h in
    let (j, j_lt, d) = dequeue-Dequeues s g.subj g.subj' g.id g.dequeued in
    let a = admit-Admitted s v i lt g.name g.subj g.found g.allowed j g.id j_lt g.subj' d in
    let c_lt : s.rotor.cursor < len s.rotor = elim v.inv.shape.ringed.ring [
      | inl l ↦ l
      | inr z ↦ omega arith
    ] in
    (
      i,
      g.name,
      g.subj,
      record {
        within = lt;
        next_served = sym (at-rotation s.rotor i c_lt lt) ∙ g.place;
        passed_over = before;
        turned = rw (g.result, a.rotor) (rotation-advance_past s.rotor i c_lt lt);
        one_slot = rw g.result a.in_flight;
        same_limit = rw g.result a.limit;
        same_credit = rw g.result a.credit;
        served = g.found;
        allowed = g.allowed;
        charged = rw g.result a.charged;
      },
    )

eligible_rules :
    (s : Scheduler) (name : String) (subj : Subject)
    → eligible s name subj ≡ true
    → (s.in_flight < s.limit)
      × (subj.in_flight < subject_ceiling s)
      × ((s.limit ≤ 1)
          ⊎ (2 ≤ s.limit - s.in_flight)
          ⊎ (has_starved_subject s name ≡ false)
          ⊎ (subj.in_flight ≡ 0))
unfolding eligible
eligible_rules s name subj h = (ground arith, ground arith, ground arith)

-- The slot rules, from a valid state: at a grant there was a free slot, the subject held less
-- than its share, and the last free slot (of several) did not go to a subject that holds one
-- while another waits with none.
pub grant_one_rules :
    (s t : Scheduler)
    → Valid s
    → grant_one s ≡ some t
    → (name : String) × (subj : Subject) × (find name s.subjects ≡ some subj)
      × (s.in_flight < s.limit)
      × (subj.in_flight < subject_ceiling s)
      × ((s.limit ≤ 1)
          ⊎ (2 ≤ s.limit - s.in_flight)
          ⊎ (has_starved_subject s name ≡ false)
          ⊎ (subj.in_flight ≡ 0))
      × ((x : Subject) × (find name t.subjects ≡ some x) × (x.in_flight ≡ subj.in_flight + 1))
grant_one_rules s t v h =
    let (_, name, subj, turn) = grant_one-Turn s t v h in
    let (a, b, c) = eligible_rules s name subj turn.allowed in
    (name, subj, turn.served, a, b, c, turn.charged)

full-grant_one : (s : Scheduler) → s.limit ≤ s.in_flight → grant_one s ≡ none
full-grant_one s full = elim (Option-cases (grant_one s)) [
  | inl e ↦ e
  | inr (t, e) ↦
      let (_, _, g, _) = grant_one-Grants s t e in
      absurd (omega (arith, eligible-free s g.name g.subj g.allowed))
]

grant_all-fuel :
    (fuel : ℕ) (s : Scheduler)
    → Valid s
    → s.limit ≤ fuel + s.in_flight
    → grant_one (grant_all fuel s) ≡ none
unfolding grant_all
grant_all-fuel zero s v le = full-grant_one s (omega arith)
grant_all-fuel (suc fuel) s v le = elim (Option-cases (grant_one s)) [
  | inl e ↦ rw (e, grant_all) e
  | inr (t, e) ↦
      let (_, _, _, turn) = grant_one-Turn s t v e in
      rw (e, grant_all)
        (grant_all-fuel fuel t (grant_one-Valid s t v e)
          (omega (arith, turn.one_slot, turn.same_limit)))
]

-- The loop without a pace ends: from a valid state, after at most `limit` grants no further one
-- can be made.
pub grant_all_ends : (s : Scheduler) → Valid s → grant_one (grant_all s.limit s) ≡ none
grant_all_ends s v = grant_all-fuel s.limit s v (omega arith)

-- With a pace: no grant and the credit held, or one grant and the credit spent.
abbrev pub Paced : Scheduler → Scheduler → Type 0
Paced s t =
    ((t.in_flight ≡ s.in_flight) × (t.credit ≡ true))
    ⊎ ((t.in_flight ≡ s.in_flight + 1) × (t.credit ≡ false))

dispatch_paced :
    (s : Scheduler) → Valid s → s.paced ≡ true → s.credit ≡ true → Paced s (dispatch_locked s)
unfolding dispatch_locked
dispatch_paced s v p c =
    if_cases (Paced s) (not s.paced) _ _ (λ e. absurd (ground arith))
      (λ _.
        if_cases (Paced s) (not s.credit) _ _ (λ e. absurd (ground arith))
          (λ _. elim (Option-cases (grant_one s)) [
            | inl e ↦ rw (e, dispatch_locked) (inl (refl, c))
            | inr (t, e) ↦
                let (_, _, _, turn) = grant_one-Turn s t v e in
                rw (e, dispatch_locked) (inr (turn.one_slot, refl))
          ]))

-- With a pace, a tick from a valid state admits exactly one request and uses up the credit, or
-- admits none and holds the credit.
pub on_tick_one :
    (s : Scheduler)
    → Valid s
    → s.paced ≡ true
    → (((on_tick s).in_flight ≡ s.in_flight) × ((on_tick s).credit ≡ true))
      ⊎ (((on_tick s).in_flight ≡ s.in_flight + 1) × ((on_tick s).credit ≡ false))
unfolding on_tick
on_tick_one s v p = dispatch_paced _ (set_flags s true _ _ _ v) p refl
