-- ===== src/Health.antt =====
-- The server's own readiness, internal/observability/health/readiness.go, and the record of what the
-- brokers answered, internal/observability/health/tracker.go.
pub mod Readiness
pub mod Tracker
mod Tests
use solace_broker_mcp.Common.{
  ℕ, String, List, [], ◌∷◌, ◌++◌, Bool, true, false, Option, none, some, key_eq, ite, ltb, leb,
  ◌==◌, if◌then◌else◌, ◌&&◌, ◌||◌, not,
}
use solace_broker_mcp.Common.Assoc.{Assoc, find, put}

-- A registered probe, with what it reports when it is called: an error, or none.
pub record Listener : Type 0 where
  pub name : String
  pub status : Option String

pub record ReadinessState : Type 0 where
  pub initialized : Bool
  pub shutting_down : Bool
  pub listeners : List Listener

abbrev pub new_readiness_state : ReadinessState
new_readiness_state = record { initialized = false; shutting_down = false; listeners = [] }

pub set_initialized : ReadinessState → ReadinessState
set_initialized s = record s { initialized = true }

pub set_shutting_down : ReadinessState → ReadinessState
set_shutting_down s = record s { shutting_down = true }

-- `RegisterListener`: a missing probe is replaced by one that always reports an error.
pub register_listener : ReadinessState → String → Option (Option String) → ReadinessState
register_listener s name probe = record s {
  listeners =
      s.listeners
      ++ record {
        name = name;
        status = elim probe [ none ↦ some "has no status probe" | some p ↦ p ];
      }
        ∷ [];
}

pub data Verdict : Type 0 where
  ready shutting_down starting : Verdict
  unready : String → String → Verdict

-- The loop over the probes: the first that reports an error decides.
pub check_listeners : List Listener → Verdict
check_listeners [] = ready
check_listeners (l ∷ rest) = elim l.status [
  | some err ↦ unready l.name err
  | none ↦ check_listeners rest
]

pub evaluate : ReadinessState → Verdict
evaluate s =
    if s.shutting_down
    then shutting_down
    else if not s.initialized
    then starting
    else check_listeners s.listeners

abbrev status_of : Verdict → ℕ
status_of v = elim v [ ready ↦ 200 | _ ↦ 503 ]

-- The status code of `ReadyzHandler`.
pub readyz : String → ReadinessState → ℕ
readyz method s = if not (ite (key_eq method "GET") true false) then 405 else status_of (evaluate s)

pub data BrokerState : Type 0 where
  reachable unreachable credential_invalid : BrokerState
  broker_error : ℕ → BrokerState

unfoldable pub classify : ℕ → BrokerState
classify code =
    if code == 0
    then unreachable
    else if code == 401 || code == 403
    then credential_invalid
    else if leb 200 code && ltb code 300
    then reachable
    else if code == 429 || (leb 500 code && ltb code 600)
    then broker_error code
    else reachable

-- An entry without its time; `seen_reasons` is a set: a list of its members, where one may
-- stand twice.
pub record BrokerEntry : Type 0 where
  pub current : BrokerState
  pub seen_reasons : List BrokerState

pub seen_before : Option BrokerEntry → List BrokerState
seen_before none = []
seen_before (some e) = e.seen_reasons

pub add_reason : BrokerState → List BrokerState → List BrokerState
add_reason reachable seen = seen
add_reason unreachable seen = unreachable ∷ seen
add_reason credential_invalid seen = credential_invalid ∷ seen
add_reason (broker_error code) seen = broker_error code ∷ seen

-- `RecordBrokerResult`.
pub record_broker_result : Assoc BrokerEntry → String → ℕ → Assoc BrokerEntry
record_broker_result entries broker code =
    put broker
      (record {
        current = classify code;
        seen_reasons = add_reason (classify code) (seen_before (find broker entries));
      })
      entries
