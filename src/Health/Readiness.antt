-- ===== src/Health/Readiness.antt =====
-- When the server reports that it is ready.
use solace_broker_mcp.Common.{
  ◌≡◌, ◌⊎◌, refl, String, List, [], ◌∷◌, Bool, true, false, Option, none, some, key_eq,
  if◌then◌else◌, ◌&&◌, not, arith, inl, inr, Option-cases,
}
use solace_broker_mcp.Health.{
  Listener, ReadinessState, set_initialized, set_shutting_down, register_listener, ready,
  shutting_down, unready, check_listeners, evaluate, readyz,
}

pub all_bound : List Listener → Bool
all_bound [] = true
all_bound (l ∷ rest) = elim l.status [ none ↦ all_bound rest | some _ ↦ false ]

listeners-bound :
    (ls : List Listener)
    → ((all_bound ls ≡ true) × (check_listeners ls ≡ ready))
      ⊎ ((all_bound ls ≡ false)
          × ((name : String) × (err : String) × (check_listeners ls ≡ unready name err)))
unfolding all_bound check_listeners
listeners-bound [] = inl (refl, refl)
listeners-bound (l ∷ rest) = elim (Option-cases l.status) [
  | inl e ↦ rw (e, all_bound, check_listeners) (listeners-bound rest)
  | inr (err, e) ↦ rw (e, all_bound, check_listeners) (inr (refl, (l.name, err, refl)))
]

-- A GET of /readyz is answered by 200 exactly when start-up is done, no drain has begun and every
-- listener is bound, and else by 503.
pub readyz-bound :
    (s : ReadinessState)
    → readyz "GET" s
      ≡ (if s.initialized && (not s.shutting_down && all_bound s.listeners) then 200 else 503)
unfolding readyz evaluate key_eq
readyz-bound s = elim (listeners-bound s.listeners) [
  | inl (a, b) ↦ ground (arith, a, b)
  | inr (a, (name, err, b)) ↦ ground (arith, a, b)
]

-- The calls on the state, in any order.
pub data Call : Type 0 where
  initialize start_drain : Call
  register : String → Option (Option String) → Call

unfoldable pub run : List Call → ReadinessState → ReadinessState
run [] s = s
run (initialize ∷ calls) s = run calls (set_initialized s)
run (start_drain ∷ calls) s = run calls (set_shutting_down s)
run (register name probe ∷ calls) s = run calls (register_listener s name probe)

-- Once a drain has begun, no later calls make the server ready again: the verdict stays
-- `shutting_down` and /readyz answers 503.
pub drain-final :
    (calls : List Call) (s : ReadinessState)
    → (evaluate (run calls (set_shutting_down s)) ≡ shutting_down)
      × (readyz "GET" (run calls (set_shutting_down s)) ≡ 503)
unfolding run evaluate readyz set_shutting_down set_initialized register_listener key_eq
drain-final [] s = (refl, refl)
drain-final (initialize ∷ calls) s = drain-final calls (set_initialized s)
drain-final (start_drain ∷ calls) s = drain-final calls s
drain-final (register name probe ∷ calls) s = drain-final calls (register_listener s name probe)
