-- ===== src/Composite/Checks.antt =====
-- internal/composite/bodychecks.go: the checks on a merged request body. `strings.EqualFold` is an
-- argument.

mod Tests
pub mod Passed
pub mod Bridge
use solace_broker_mcp.Common.{
  String, key_eq, Bool, true, false, not, ◌&&◌, ◌||◌, List, [], ◌∷◌, Option, none, some, ite,
  if◌then◌else◌,
}
use solace_broker_mcp.Common.Texts.{is_text, starts_with}
use solace_broker_mcp.Common.Result.{Result, ok, err, ◌>>=◌}
use solace_broker_mcp.Common.Json.{
  Json, null, boolean, number, text, array, object, Object, end, field, get,
}

pub data BodyMode : Type 0 where
  mode_create mode_update mode_replace : BodyMode

pub body_mode_for : String → Option BodyMode
body_mode_for op_id =
    if starts_with op_id "create"
    then some mode_create
    else if starts_with op_id "update"
    then some mode_update
    else if starts_with op_id "replace"
    then some mode_replace
    else none

-- The rejections, each with the name that its message has in it and never a caller's value.
pub data CheckError : Type 0 where
  secret_field : (secret : String) → CheckError
  retarget_field : (name : String) → CheckError
  tls_turned_off scheme_not_string enabled_not_bool : CheckError
  create_enabled replace_enabled update_not_disabled : CheckError
  not_a_write : (op_id : String) → CheckError
  unknown_check : (name : String) → CheckError

-- The sorted lists that the program ranges over.
abbrev pub kafka_secret_fields : List String
kafka_secret_fields =
    "authenticationAwsMskIamSecretAccessKey" ∷ "authenticationBasicPassword"
    ∷ "authenticationClientCertContent" ∷ "authenticationClientCertPassword"
    ∷ "authenticationKerberosKeytabContent" ∷ "authenticationOauthClientSecret"
    ∷ "authenticationScramPassword" ∷ []

abbrev pub msg_vpn_secret_fields : List String
msg_vpn_secret_fields =
    "replicationBridgeAuthenticationBasicPassword"
    ∷ "replicationBridgeAuthenticationClientCertContent"
    ∷ "replicationBridgeAuthenticationClientCertPassword" ∷ []

abbrev pub kafka_retarget_fields : List String
kafka_retarget_fields = "bootstrapAddressList" ∷ "authenticationOauthClientTokenEndpoint" ∷ []

pub data BodyCheck : Type 0 where
  reject_kafka_secrets reject_msg_vpn_secrets : BodyCheck
  created_disabled_when_authenticated reject_kafka_retarget : BodyCheck

-- The registry `bodyChecks`.
pub body_check : String → Option BodyCheck
body_check name =
    if is_text name "rejectKafkaSecrets"
    then some reject_kafka_secrets
    else if is_text name "rejectMsgVpnSecrets"
    then some reject_msg_vpn_secrets
    else if is_text name "createDisabledWhenAuthenticated"
    then some created_disabled_when_authenticated
    else if is_text name "rejectKafkaRetarget"
    then some reject_kafka_retarget
    else none

module _ (equal_fold : String → String → Bool) where
  -- Whether some key of the body is a name, but for the case of its letters.
  pub has_key : Object → String → Bool
  has_key end name = false
  has_key (field k v o) name = equal_fold k name || has_key o name

  pub first_key : Object → List String → Option String
  first_key body [] = none
  first_key body (name ∷ names) = if has_key body name then some name else first_key body names

  pub reject_secret_fields : List String → BodyMode → Object → Result CheckError Unit
  reject_secret_fields fields mode body = elim (first_key body fields) [
    | some secret ↦ err (secret_field secret)
    | none ↦ ok tt
  ]

  abbrev is_false : Json → Bool
  is_false v = elim v [ boolean b ↦ not b | _ ↦ false ]

  pub turns_tls_off : Object → Bool
  turns_tls_off end = false
  turns_tls_off (field k v o) = equal_fold k "transportTlsEnabled" && is_false v || turns_tls_off o

  pub retargets : Object → Result CheckError Unit
  retargets body = elim (first_key body kafka_retarget_fields) [
    | some name ↦ err (retarget_field name)
    | none ↦ if turns_tls_off body then err tls_turned_off else ok tt
  ]

  pub check_kafka_retarget : BodyMode → Object → Result CheckError Unit
  check_kafka_retarget mode_create body = ok tt
  check_kafka_retarget mode_update body = retargets body
  check_kafka_retarget mode_replace body = retargets body

-- `enabled` of the body: absent, a boolean, or something else.
pub read_enabled : Option Json → Result CheckError (Option Bool)
read_enabled none = ok none
read_enabled (some (boolean b)) = ok (some b)
read_enabled (some _) = err enabled_not_bool

pub must_be_disabled : BodyMode → Option Bool → Result CheckError Unit
must_be_disabled mode_create (some true) = err create_enabled
must_be_disabled mode_replace (some true) = err replace_enabled
must_be_disabled mode_update none = err update_not_disabled
must_be_disabled mode_update (some true) = err update_not_disabled
must_be_disabled mode enabled = ok tt

pub names_scheme : String → Bool
names_scheme scheme = not (is_text scheme "" || is_text scheme "none")

pub on_scheme : BodyMode → Object → Option Json → Result CheckError Unit
on_scheme mode body none = ok tt
on_scheme mode body (some (text scheme)) =
    if names_scheme scheme
    then (read_enabled (get "enabled" body) >>= must_be_disabled mode)
    else ok tt
on_scheme mode body (some _) = err scheme_not_string

pub check_authenticated_bridge_is_disabled : BodyMode → Object → Result CheckError Unit
check_authenticated_bridge_is_disabled mode body =
    on_scheme mode body (get "authenticationScheme" body)

module _ (equal_fold : String → String → Bool) where
  pub run_check : BodyCheck → BodyMode → Object → Result CheckError Unit
  run_check reject_kafka_secrets = reject_secret_fields equal_fold kafka_secret_fields
  run_check reject_msg_vpn_secrets = reject_secret_fields equal_fold msg_vpn_secret_fields
  run_check created_disabled_when_authenticated = check_authenticated_bridge_is_disabled
  run_check reject_kafka_retarget = check_kafka_retarget equal_fold

  pub run_found : String → Option BodyCheck → BodyMode → Object → Result CheckError Unit
  run_found name none mode body = err (unknown_check name)
  run_found name (some check) mode body = run_check check mode body

  pub run_all : List String → BodyMode → Object → Result CheckError Unit
  run_all [] mode body = ok tt
  run_all (name ∷ names) mode body =
      run_found name (body_check name) mode body >>= λ _. run_all names mode body

  pub run_in_mode : List String → String → Option BodyMode → Object → Result CheckError Unit
  run_in_mode names op_id none body = err (not_a_write op_id)
  run_in_mode names op_id (some mode) body = run_all names mode body

  unfoldable pub run_body_checks : List String → String → Object → Result CheckError Unit
  run_body_checks [] op_id body = ok tt
  run_body_checks (name ∷ names) op_id body =
      run_in_mode (name ∷ names) op_id (body_mode_for op_id) body
