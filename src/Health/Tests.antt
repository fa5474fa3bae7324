-- ===== src/Health/Tests.antt =====
-- Runs of the readiness state and the tracker, and an instance of each of their theorems.
use mathlib.Core.List.{Memᴰ}
use solace_broker_mcp.Common.{
  ◌↔◌, ℕ, ◌≡◌, refl, String, List, [], ◌∷◌, none, some, key_eq, if◌then◌else◌, not, ◌&&◌,
}
use solace_broker_mcp.Common.Assoc.{find, put}
use solace_broker_mcp.Health.{
  new_readiness_state, set_initialized, register_listener, unready, evaluate, check_listeners,
  readyz, BrokerState, broker_error, unreachable, classify, seen_before, record_broker_result,
  add_reason,
}
use solace_broker_mcp.Health.Readiness.{all_bound, readyz-bound, Call, initialize, register, run}
use solace_broker_mcp.Health.Tracker.{
  record_all, last_code, IsCurrent, Reported, record_all-history,
}

abbrev calls : List Call
calls = initialize ∷ register "metrics" (some none) ∷ []

readiness_test :
    (readyz "GET" new_readiness_state ≡ 503)
    × (readyz "GET" (run calls new_readiness_state) ≡ 200)
    × (readyz "POST" (run calls new_readiness_state) ≡ 405)
    × (evaluate (register_listener (run calls new_readiness_state) "x" none)
        ≡ unready "x" "has no status probe")
unfolding readyz evaluate check_listeners run set_initialized register_listener key_eq
readiness_test = (refl, refl, refl, refl)

readyz-bound_example : readyz "GET" (run calls new_readiness_state) ≡ (
    if (run calls new_readiness_state).initialized
      && (not (run calls new_readiness_state).shutting_down
          && all_bound (run calls new_readiness_state).listeners)
    then 200
    else 503)
readyz-bound_example = readyz-bound (run calls new_readiness_state)

abbrev results : List (String × ℕ)
results = ("a", 200) ∷ ("b", 401) ∷ ("a", 503) ∷ ("a", 0) ∷ []

tracker_test :
    (last_code "a" results ≡ some 200)
    × (seen_before (find "a" (record_all results)) ≡ broker_error 503 ∷ unreachable ∷ [])
unfolding last_code record_all record_broker_result add_reason seen_before find put classify key_eq
tracker_test = (refl, refl)

record_all-history_example :
    IsCurrent (find "a" (record_all results)) (last_code "a" results)
    × ((s : BrokerState)
        → Memᴰ s (seen_before (find "a" (record_all results))) ↔ Reported "a" s results)
record_all-history_example = record_all-history "a" results
