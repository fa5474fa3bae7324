-- ===== src/Scheduler/Tests.antt =====
-- Runs of the scheduler on small inputs, and an instance of each of its theorems.
use solace_broker_mcp.Common.{
  ℕ, ◌≡◌, ◌≤◌, ◌<◌, ◌+◌, ◌-◌, ◌∷◌, [], ◌⊎◌, refl, true, false, some, none, String, key_eq,
  ℕ_discrete, arith, length, get_elem?, List, ap, inr,
}
use solace_broker_mcp.Common.Assoc.{find, put, del, modify, any, any_other, sum_of}
use solace_broker_mcp.Scheduler.Rotor.{empty, at, advance_past, insert, remove, remove_at, index_of}
use solace_broker_mcp.Scheduler.Rotor.Rotation.{rotate}
use solace_broker_mcp.Scheduler.Rotor.Members.{occ, without}
use solace_broker_mcp.Scheduler.Rotor.Refines.{
  Refines, Move, take_turn, join, leave, move_queue, all_moves, all_moves_queue, Possible,
  AllPossible, rotor-Refines_queue,
}
use solace_broker_mcp.Scheduler.State.{
  CallerKey, Session, Subject, Scheduler, new_scheduler, session_in_flight, stats, stage,
  concurrency, share, subject_ceiling, session_ceiling, eligible, session_eligible,
  has_starved_subject, has_starved_session, is_queued, has_queued, session_active, subject_active,
  new_waiter, set_waiter, no_subject, no_session,
}
use solace_broker_mcp.Scheduler.Ops.{
  enqueue, release, abandon, enqueue_open, enqueue_stopped, enter_subject, enter_session,
  release_locked, remove_from_queue, prune_session, prune_subject, drop_id,
}
use solace_broker_mcp.Scheduler.Dispatch.{
  on_wake, on_stopped, stop, enqueues, wakes, Reach, here, next, grant_one, grant_all, grant_from,
  try_subject, dequeue, dequeue_from, try_session, admit, dispatch_locked, drain, drain_subjects,
  drain_subject, drain_sessions, fail_sessions, fail_all,
}
use solace_broker_mcp.Scheduler.Valid.{Valid}
use solace_broker_mcp.Scheduler.Reachable.{Reach-Valid}
use solace_broker_mcp.Scheduler.Order.{grant_one_conserves}
use solace_broker_mcp.Scheduler.Fairness.{Turn, grant_one-Turn, grant_one_rules, grant_all_ends}
use solace_broker_mcp.Scheduler.Settling.{settles_once}

abbrev key_of : String → String → CallerKey
key_of s t = record { subject = s; session = t }

-- Two callers, one of them with two requests, and two slots.
abbrev queued_two : Scheduler
queued_two =
    (enqueue (enqueue (enqueue (new_scheduler 2 false 2) (key_of "a" "x")).0 (key_of "a" "x")).0
      (key_of "b" "y")).0

abbrev served_two : Scheduler
served_two = on_wake queued_two

abbrev subject_of : String → Scheduler → Subject
subject_of name s = elim (find name s.subjects) [ none ↦ no_subject | some subj ↦ subj ]

abbrev session_of : String → Subject → Session
session_of name subj = elim (find name subj.sessions) [ none ↦ no_session | some cs ↦ cs ]

abbrev granted_from : Scheduler → Scheduler
granted_from s = elim (grant_one s) [ none ↦ s | some t ↦ t ]

abbrev queued_paced : Scheduler
queued_paced = (enqueue (new_scheduler 2 true 2) (key_of "a" "x")).0

-- The slots go to two callers in turn, the third request waits, and its caller is served again when
-- a slot comes back.
round_robin_test :
    (stats served_two ≡ (2, 2, 2))
    × (session_in_flight served_two (key_of "a" "x") ≡ 1)
    × (stage served_two 1 ≡ concurrency)
    × (session_in_flight (on_wake (release served_two 2)) (key_of "a" "x") ≡ 2)
    × (stats (on_wake (abandon (release served_two 2) 1)) ≡ (1, 1, 1))
unfolding stats stage session_in_flight release release_locked abandon remove_from_queue drop_id
    on_wake dispatch_locked enqueue new_scheduler grant_all find sum_of put key_eq grant_one insert
    try_subject at has_queued any eligible subject_ceiling share dequeue try_session
    session_eligible session_ceiling admit ℕ_discrete any_other del modify dequeue_from grant_from
    enqueue_open enqueue_stopped enter_session enter_subject prune_session prune_subject
    advance_past index_of remove remove_at has_starved_session has_starved_subject new_waiter
    session_active set_waiter subject_active
round_robin_test = (refl, refl, refl, refl, refl)

-- A stopped scheduler fails what waits and keeps the slots that are held.
stop_test :
    (stats (on_stopped (stop served_two)) ≡ (2, 2, 2))
    × (((on_stopped (stop served_two)).waiters 1).closes ≡ 1)
    × (((on_stopped (stop served_two)).waiters 0).err ≡ none)
unfolding stop stats on_stopped drain drain_subjects drain_subject drain_sessions fail_sessions
    fail_all on_wake dispatch_locked enqueue new_scheduler grant_all find sum_of put key_eq
    grant_one insert try_subject at has_queued any eligible subject_ceiling share dequeue
    try_session session_eligible session_ceiling admit ℕ_discrete any_other del modify dequeue_from
    grant_from enqueue_open enqueue_stopped enter_session enter_subject prune_session prune_subject
    advance_past index_of remove remove_at has_starved_session has_starved_subject new_waiter
    session_active set_waiter subject_active
stop_test = (refl, refl, refl)

run_facts :
    (grant_one queued_two ≡ some (granted_from queued_two))
    × (grant_one served_two ≡ none)
    × (find "a" served_two.subjects ≡ some (subject_of "a" served_two))
    × (find "x" (subject_of "a" served_two).sessions
        ≡ some (session_of "x" (subject_of "a" served_two)))
    × (is_queued (session_of "x" (subject_of "a" served_two)) ≡ true)
    × (queued_two.exited ≡ false)
    × (queued_two.wake ≡ true)
    × (queued_paced.paced ≡ true)
    × (length queued_paced.subjects ≡ 1)
    × (length (subject_of "a" queued_paced).sessions ≡ 1)
    × (queued_paced.limit ≡ 2)
unfolding on_wake dispatch_locked enqueue new_scheduler grant_all find sum_of put key_eq grant_one
    insert try_subject at has_queued any eligible subject_ceiling share dequeue try_session
    session_eligible session_ceiling admit ℕ_discrete any_other del modify dequeue_from grant_from
    enqueue_open enqueue_stopped enter_session enter_subject prune_session prune_subject
    advance_past index_of remove remove_at has_starved_session has_starved_subject new_waiter
    session_active set_waiter subject_active
run_facts = (refl, refl, refl, refl, refl, refl, refl, refl, refl, refl, refl)

queued_two-Reach : Reach (new_scheduler 2 false 2) queued_two
queued_two-Reach = next (next (next here (enqueues _ _)) (enqueues _ _)) (enqueues _ _)

served_two-Reach : Reach (new_scheduler 2 false 2) served_two
served_two-Reach = next queued_two-Reach (wakes _ run_facts.5 run_facts.6)

queued_paced-Reach : Reach (new_scheduler 2 true 2) queued_paced
queued_paced-Reach = next here (enqueues _ _)

Reach-Valid_example : Valid served_two
Reach-Valid_example = Reach-Valid 2 false 2 served_two-Reach

grant_one-Turn_example :
    (place : ℕ) × (name : String) × (subj : Subject) × Turn queued_two
      (granted_from queued_two)
      place
      name
      subj
grant_one-Turn_example =
    grant_one-Turn queued_two (granted_from queued_two) (Reach-Valid 2 false 2 queued_two-Reach)
      run_facts.0

grant_one_rules_example :
    (name : String) × (subj : Subject) × (find name queued_two.subjects ≡ some subj)
    × (queued_two.in_flight < queued_two.limit)
    × (subj.in_flight < subject_ceiling queued_two)
    × ((queued_two.limit ≤ 1)
        ⊎ (2 ≤ queued_two.limit - queued_two.in_flight)
        ⊎ (has_starved_subject queued_two name ≡ false)
        ⊎ (subj.in_flight ≡ 0))
    × ((x : Subject) × (find name (granted_from queued_two).subjects ≡ some x)
        × (x.in_flight ≡ subj.in_flight + 1))
grant_one_rules_example =
    grant_one_rules queued_two (granted_from queued_two) (Reach-Valid 2 false 2 queued_two-Reach)
      run_facts.0

grant_one_conserves_example :
    (eligible served_two "a" (subject_of "a" served_two) ≡ false)
    ⊎ (session_eligible served_two
          (subject_of "a" served_two)
          "x"
          (session_of "x" (subject_of "a" served_two))
        ≡ false)
grant_one_conserves_example =
    grant_one_conserves served_two "a" "x" (subject_of "a" served_two)
      (session_of "x" (subject_of "a" served_two)) (Reach-Valid 2 false 2 served_two-Reach)
      run_facts.1 run_facts.2 run_facts.3 run_facts.4

grant_all_ends_example : grant_one (grant_all queued_two.limit queued_two) ≡ none
grant_all_ends_example = grant_all_ends queued_two (Reach-Valid 2 false 2 queued_two-Reach)

settles_once_example :
    (abandon (abandon served_two 0) 0 ≡ abandon served_two 0)
    × (release (abandon served_two 0) 0 ≡ abandon served_two 0)
    × (release (release served_two 0) 0 ≡ release served_two 0)
settles_once_example = settles_once served_two 0

empty-Refines : Refines empty []
unfolding Refines occ rotate
empty-Refines = (inr refl, (λ k. omega arith), refl)

abbrev moves : List Move
moves = join "a" ∷ join "b" ∷ join "c" ∷ take_turn 1 ∷ leave "b" ∷ []

moves-AllPossible : AllPossible [] moves
unfolding AllPossible Possible move_queue rotate occ key_eq
moves-AllPossible = (refl, (refl, (refl, (omega arith, (tt, tt)))))

moved : all_moves_queue [] moves ≡ "c" ∷ "a" ∷ []
unfolding all_moves_queue move_queue rotate without key_eq
moved = refl

rotor-Refines_queue_example :
    Refines (all_moves empty moves) (all_moves_queue [] moves)
    × (at (all_moves empty moves) 1 ≡ get_elem? (all_moves_queue [] moves) 1)
rotor-Refines_queue_example =
    rotor-Refines_queue empty [] moves 1 empty-Refines moves-AllPossible
      (omega (arith, ap length moved))
