-- ===== src/Tools/Tests.antt =====
-- Errors as an agent sees them, and an instance of each theorem on them.
use solace_broker_mcp.Common.{ℕ, ◌≡◌, refl, key_eq, true, false, [], none, some, ◌⊎◌}
use solace_broker_mcp.Scheduler.State.{Stage}
use solace_broker_mcp.Retry.{RetryState, new_retry_state, is_write}
use solace_broker_mcp.Sender.{SendError, busy, exhausted, mark_error}
use solace_broker_mcp.Tools.{
  Texts, ToolError, semp_v2, build_error_message, build_semp_v2_message, broker_text_may_be_shown,
  with_hint, or_access, broker_access_message, reworded, described, is_semp_status,
  is_not_found_on_delete, is_retryable, classify_desired_state, already_absent,
}
use solace_broker_mcp.Tools.Shown.{quotes, may_quote, build_error_message-Allowed}
use solace_broker_mcp.Tools.Repeating.{
  of_send, has_exchange_transport, FromExchange, unsafe_to_repeat, retryable_unsent,
}

abbrev texts : Texts
texts = record {
  sanitize = λ s. s;
  translate_parent = λ s. none;
  decode_subscription = λ s. none;
  connection_failure = λ e alias. "no connection";
  kind_name = λ kind. "kind";
}

abbrev failed : ℕ → ToolError
failed status = semp_v2 (record {
  status_code = status;
  semp_code = 6;
  semp_status = "NOT_FOUND";
  operation = "deleteMsgVpnQueue";
  description = "Could not find match for q";
  names_https_port = false;
})

classify_test : classify_desired_state (failed 400) ≡ some already_absent
unfolding classify_desired_state is_semp_status is_not_found_on_delete key_eq
classify_test = refl

quoted_test : quotes (build_error_message texts (failed 400) "b").0 ≡ true
unfolding quotes build_error_message or_access broker_access_message with_hint build_semp_v2_message
    broker_text_may_be_shown reworded described is_semp_status is_not_found_on_delete key_eq
quoted_test = refl

build_error_message-Allowed_example : may_quote (failed 400) ≡ true
build_error_message-Allowed_example = build_error_message-Allowed texts (failed 400) "b" quoted_test

abbrev sent_get : RetryState
sent_get = new_retry_state "GET" false false

abbrev unavailable : SendError
unavailable =
    exhausted
      (record { status_code = 503; attempts = 3; cause = none; non_idempotent = false; body = [] })

told : is_retryable (of_send 1 "" (mark_error sent_get unavailable)) ≡ true
unfolding is_retryable of_send mark_error is_write has_exchange_transport key_eq
told = refl

retryable_unsent_example :
    ((at : Stage) × (unavailable ≡ busy at))
    ⊎ FromExchange unavailable
    ⊎ (unsafe_to_repeat sent_get ≡ false)
retryable_unsent_example = retryable_unsent 1 "" sent_get unavailable told
