-- ===== src/Tools.antt =====
-- internal/tools/errors.go: what an agent is told of an error. A message is kept as its parts, so that
-- the broker's own words can be told from the server's. The regular expressions, the rewording of the
-- two patterns they find and the texts of other packages are arguments.
mod Tests
pub mod Shown
pub mod Repeating
use solace_broker_mcp.Common.{
  ℕ, zero, suc, ◌+◌, String, Bool, true, false, not, ◌&&◌, ◌||◌, List, [], ◌∷◌, ◌++◌, Option, none,
  some, ltb, leb, ◌==◌, if◌then◌else◌,
}
use solace_broker_mcp.Common.Texts.{is_text, starts_with}

-- A part of a message: the server's own words, with what it put into them, or the broker's.
pub data Part : Type 0 where
  own : String → Part
  number : ℕ → Part
  from_broker : String → Part

pub data SempKind : Type 0 where
  execute_fail parse_error permission limit http unknown_kind : SempKind

pub record SempV2Error : Type 0 where
  pub status_code : ℕ
  pub semp_code : ℕ
  pub semp_status : String
  pub operation : String
  pub description : String
  pub names_https_port : Bool

pub record SempV1Error : Type 0 where
  pub kind : SempKind
  pub status_code : ℕ
  pub reason_code : ℕ
  pub message : String
  pub names_https_port : Bool

pub record RetriesError : Type 0 where
  pub status_code : ℕ
  pub attempts : ℕ
  pub non_idempotent : Bool
  pub detail : String
  pub exchange_transport : Bool

-- An error by the first of the cases that finds its kind in the chain. `exchange_transport` says whether
-- `ErrExchangeTransport` is in the chain of one that has a cause.
pub data ToolError : Type 0 where
  body_error describe_error owner_not_found : (text : String) → ToolError
  owner_check_failed : (object_kind : String) → (cause : ToolError) → ToolError
  broker_busy : (wait_seconds : ℕ) → ToolError
  retries_failed : RetriesError → ToolError
  exchange_failed : (is_transport : Bool) → (agent_message : String) → ToolError
  semp_v2 : SempV2Error → ToolError
  semp_v1 : SempV1Error → ToolError
  internal_error : ToolError

-- The rewordings, and the texts that hold no word of the broker's.
pub record Texts : Type 0 where
  pub sanitize : String → String
  pub translate_parent : String → Option String
  pub decode_subscription : String → Option String
  pub connection_failure : RetriesError → String → String
  pub kind_name : SempKind → String

abbrev pub permission_denied_code : ℕ
permission_denied_code = 72

pub broker_text_may_be_shown : ℕ → Bool
broker_text_may_be_shown status = ltb status 500 || status == 503

abbrev pub generic_internal_message : List Part
generic_internal_message =
    own
      "The broker reported an internal error. Please try again later or contact your administrator."
    ∷ []

abbrev pub service_unavailable_message : List Part
service_unavailable_message =
    own "The broker is temporarily unavailable. Please try again shortly." ∷ []

pub is_semp_status : SempV2Error → String → ℕ → Bool
is_semp_status e status code =
    if is_text e.semp_status "" then e.semp_code == code else is_text e.semp_status status

pub is_not_found_on_delete : SempV2Error → Bool
is_not_found_on_delete e = is_semp_status e "NOT_FOUND" 6 && starts_with e.operation "delete"

pub data DesiredState : Type 0 where
  already_exists already_absent : DesiredState

-- `classifyDesiredStateOutcome`: the kind of outcome.
pub classify_desired_state : ToolError → Option DesiredState
classify_desired_state (semp_v2 e) =
    if is_semp_status e "ALREADY_EXISTS" 10 && starts_with e.operation "create"
    then some already_exists
    else if is_not_found_on_delete e
    then some already_absent
    else none
classify_desired_state e = none

-- The hint of a code in `translatedErrorCodes`, and whether the code is transient.
unfoldable pub code_hint : ℕ → Option String
code_hint code =
    if code == 6
    then some "Verify the name is correct."
    else if code == 10
    then some "Update the existing object or choose a new name."
    else if code == 11
    then some "Check attribute values against the SEMP schema."
    else if code == 14
    then some "Not supported for this object or broker mode."
    else if code == 27
    then some "Check the request/query syntax."
    else if code == 72
    then some "Credentials lack permission; check the management role/VPN scope."
    else if code == 89
    then some "Not allowed in the object's current state."
    else if code == 135
    then some
        "A configured maximum was reached; this tool can't tell whether the limit is broker-wide or per-VPN."
    else if code == 228
    then some "Supply all required fields for this object."
    else if code == 229
    then some "Retry shortly."
    else if code == 256
    then some "Drain or remove contained objects before deleting."
    else if code == 403
    then some
        "A configured maximum was reached; this tool can't tell whether the limit is broker-wide or per-queue."
    else none

unfoldable pub code_retryable : ℕ → Bool
code_retryable code = code == 229

abbrev pub transient_status : ℕ → Bool
transient_status status = status == 429 || status == 503

pub is_retryable : ToolError → Bool
is_retryable (exchange_failed transport message) = transport
is_retryable (broker_busy wait) = true
is_retryable (retries_failed e) = e.exchange_transport || not e.non_idempotent
is_retryable (semp_v2 e) = transient_status e.status_code || code_retryable e.semp_code
is_retryable (semp_v1 e) = transient_status e.status_code || code_retryable e.reason_code
is_retryable (owner_check_failed kind cause) = is_retryable cause
is_retryable (body_error text) = false
is_retryable (describe_error text) = false
is_retryable (owner_not_found text) = false
is_retryable internal_error = false

pub broker_access_message : (alias : String) → ℕ → (denied https_port : Bool) → Option (List Part)
broker_access_message alias status denied https_port =
    if is_text alias ""
    then none
    else if status == 401
    then some (
        own "Broker "
        ∷ own alias
        ∷ own
            " rejected the login this server sent (HTTP 401). With basic or bearer auth, check the configured username, password or token; with OAuth, check that the broker's OAuth profile accepts the exchanged token's issuer and audience."
        ∷ [])
    else if denied
    then some (
        own "The login for broker "
        ∷ own alias
        ∷ own " is not permitted to perform this operation."
        ∷ [])
    else if status == 400 && https_port
    then some (
        own "Broker "
        ∷ own alias
        ∷ own
            " rejected a plain HTTP request on its HTTPS port: change the configured broker URL to use https://."
        ∷ [])
    else none

module _ (texts : Texts) where
  abbrev sanitized : String → Part
  sanitized s = from_broker (texts.sanitize s)

  unfoldable pub described : SempV2Error → List Part
  described e =
      if is_text e.description ""
      then own e.operation ∷ own " returned HTTP " ∷ number e.status_code ∷ []
      else sanitized e.description ∷ []

  -- What is found by the first of the two rewordings, else by the second, else the description.
  pub reworded : SempV2Error → Option String → Option String → List Part
  reworded e (some text) decoded = from_broker text ∷ []
  reworded e none (some text) = from_broker text ∷ []
  reworded e none none = described e

  pub build_semp_v2_message : SempV2Error → List Part
  build_semp_v2_message e =
      if not (broker_text_may_be_shown e.status_code)
      then generic_internal_message
      else reworded e
          (if is_semp_status e "NOT_FOUND" 6
              && (starts_with e.operation "create" || starts_with e.operation "delete")
            then texts.translate_parent e.description
            else none)
          (if is_not_found_on_delete e then texts.decode_subscription e.description else none)

  abbrev pub command_failed : SempV1Error → List Part
  command_failed e =
      if is_text e.message ""
      then own (texts.kind_name e.kind)
        ∷ own " error (status="
        ∷ number e.status_code
        ∷ own ")"
        ∷ []
      else own (texts.kind_name e.kind) ∷ own " error: " ∷ sanitized e.message ∷ []

  pub build_semp_v1_message : SempKind → SempV1Error → List Part
  build_semp_v1_message execute_fail e = command_failed e
  build_semp_v1_message parse_error e = command_failed e
  build_semp_v1_message permission e = command_failed e
  build_semp_v1_message limit e =
      if is_text e.message ""
      then command_failed e
      else command_failed e ++ (own ". Reduce the scope of the request." ∷ [])
  build_semp_v1_message http e =
      if e.status_code == 503
      then service_unavailable_message
      else if leb 500 e.status_code
      then generic_internal_message
      else own "HTTP " ∷ number e.status_code ∷ own " error" ∷ []
  build_semp_v1_message unknown_kind e = generic_internal_message

  abbrev pub not_repeated : List Part
  not_repeated =
      own
        "Request failed and was deliberately not retried, because repeating this operation is not safe: the broker may have already applied it. Check the current state before deciding whether to issue it again."
      ∷ []

  pub retries_message : RetriesError → String → List Part
  retries_message e alias =
      if e.non_idempotent
      then (if not (is_text e.detail "") && broker_text_may_be_shown e.status_code
          then not_repeated ++ (own " The broker reported: " ∷ sanitized e.detail ∷ [])
          else not_repeated)
      else if e.status_code == 0
      then own (texts.connection_failure e alias) ∷ []
      else own "Request failed after "
        ∷ number e.attempts
        ∷ own " attempts (HTTP "
        ∷ number e.status_code
        ∷ own "). Internal retries exhausted; try again later."
        ∷ []

  -- The message and the hint for a SEMP error of a status and a code.
  pub with_hint : ℕ → ℕ → List Part → List Part × Option String
  with_hint status code message =
      if broker_text_may_be_shown status then (message, code_hint code) else (message, none)

  pub or_access : Option (List Part) → List Part × Option String → List Part × Option String
  or_access (some message) rest = (message, none)
  or_access none rest = rest

  abbrev is_http : SempKind → Bool
  is_http http = true
  is_http _ = false

  pub build_error_message : ToolError → String → List Part × Option String
  build_error_message (body_error text) alias = (own text ∷ [], none)
  build_error_message (owner_check_failed kind cause) alias =
      let (message, hint) = build_error_message cause alias in
      (
        own "Could not confirm whether the requested owner client username exists, so this "
            ∷ own kind
            ∷ own " was not created or updated — nothing was changed. "
            ∷ message,
        hint,
      )
  build_error_message (broker_busy wait) alias = (
    own
          "The broker is too busy to accept this request right now, so it was not sent. Nothing was changed on the broker. Wait about "
        ∷ number wait
        ∷ own (if wait == 1 then " second" else " seconds")
        ∷ own " and try again."
        ∷ [],
    some
        "If this keeps happening, the broker is saturated: reduce how many requests you issue at once.",
  )
  build_error_message (retries_failed e) alias = (retries_message e alias, none)
  build_error_message (exchange_failed transport message) alias = (own message ∷ [], none)
  build_error_message (describe_error text) alias = (own text ∷ [], none)
  build_error_message (owner_not_found text) alias = (own text ∷ [], none)
  build_error_message (semp_v2 e) alias =
      or_access
        (broker_access_message alias e.status_code (e.semp_code == permission_denied_code)
          e.names_https_port)
        (with_hint e.status_code e.semp_code (build_semp_v2_message e))
  build_error_message (semp_v1 e) alias =
      or_access
        (if is_http e.kind
          then broker_access_message alias e.status_code false e.names_https_port
          else none)
        (with_hint e.status_code e.reason_code (build_semp_v1_message e.kind e))
  build_error_message internal_error alias = (generic_internal_message, none)
