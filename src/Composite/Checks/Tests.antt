-- ===== src/Composite/Checks/Tests.antt =====
-- Bodies that the checks let pass, and instances of the theorems on them. Letters are compared as they
-- are.
use solace_broker_mcp.Common.{String, key_eq, ◌≡◌, ◌≢◌, refl, true, false, List, [], ◌∷◌, some}
use solace_broker_mcp.Common.Texts.{is_text}
use solace_broker_mcp.Common.Result.{ok}
use solace_broker_mcp.Common.Json.{text, boolean, Object, end, field, get}
use solace_broker_mcp.Composite.Checks.{
  BodyMode, mode_create, mode_update, body_mode_for, BodyCheck, body_check, has_key, first_key,
  reject_secret_fields, turns_tls_off, retargets, check_kafka_retarget, read_enabled,
  must_be_disabled, names_scheme, on_scheme, check_authenticated_bridge_is_disabled, run_check,
  run_found, run_all, run_in_mode, run_body_checks, kafka_secret_fields,
}
use solace_broker_mcp.Composite.Checks.Passed.{run_body_checks-each, reject_secret_fields-clean}
use solace_broker_mcp.Composite.Checks.Bridge.{
  enabled_after, check_authenticated_bridge-disabled, check_kafka_retarget-keeps,
}

abbrev body : Object
body = field "authenticationScheme" (text "basic") (field "enabled" (boolean false) end)

abbrev names : List String
names = "rejectKafkaSecrets" ∷ "createDisabledWhenAuthenticated" ∷ "rejectKafkaRetarget" ∷ []

passes : run_body_checks is_text names "updateMsgVpnKafkaReceiver" body ≡ ok tt
unfolding run_body_checks run_in_mode run_all run_found run_check body_check body_mode_for
    reject_secret_fields first_key has_key check_authenticated_bridge_is_disabled on_scheme
    names_scheme read_enabled must_be_disabled check_kafka_retarget retargets turns_tls_off get
    key_eq
passes = refl

run_body_checks-each_example :
    (mode : BodyMode) × (check : BodyCheck) × (body_mode_for "updateMsgVpnKafkaReceiver"
      ≡ some mode)
    × (body_check "rejectKafkaSecrets" ≡ some check)
    × (run_check is_text check mode body ≡ ok tt)
run_body_checks-each_example =
    run_body_checks-each is_text names "updateMsgVpnKafkaReceiver" body 0 "rejectKafkaSecrets"
      passes refl

no_secrets : reject_secret_fields is_text kafka_secret_fields mode_update body ≡ ok tt
unfolding reject_secret_fields first_key has_key key_eq
no_secrets = refl

scheme_there : get "authenticationScheme" body ≡ some (text "basic")
unfolding get key_eq
scheme_there = refl

enabled_there : get "enabled" body ≡ some (boolean false)
unfolding get key_eq
enabled_there = refl

reject_secret_fields-clean_example : is_text "enabled" "authenticationBasicPassword" ≡ false
reject_secret_fields-clean_example =
    reject_secret_fields-clean is_text kafka_secret_fields mode_update body 1
      "authenticationBasicPassword" "enabled" (boolean false) no_secrets refl enabled_there

disabled_passes : check_authenticated_bridge_is_disabled mode_update body ≡ ok tt
unfolding check_authenticated_bridge_is_disabled on_scheme names_scheme read_enabled
    must_be_disabled get key_eq
disabled_passes = refl

check_authenticated_bridge-disabled_example :
    (s : String) × (text "basic" ≡ text s)
    × (names_scheme s ≡ true → enabled_after mode_update true (get "enabled" body) ≡ false)
check_authenticated_bridge-disabled_example =
    check_authenticated_bridge-disabled mode_update true body (text "basic") disabled_passes
      scheme_there

retarget_passes : check_kafka_retarget is_text mode_update body ≡ ok tt
unfolding check_kafka_retarget retargets first_key has_key turns_tls_off key_eq
retarget_passes = refl

update_not_create : mode_update ≢ mode_create
update_not_create e = cc

check_kafka_retarget-keeps_example :
    (is_text "enabled" "bootstrapAddressList" ≡ false)
    × (is_text "enabled" "transportTlsEnabled" ≡ true → boolean false ≢ boolean false)
check_kafka_retarget-keeps_example =
    check_kafka_retarget-keeps is_text mode_update body "enabled" (boolean false) 0
      "bootstrapAddressList" update_not_create retarget_passes enabled_there refl
