-- ===== src/Composite/Body/Tests.antt =====
-- A body that is merged from its parameters, and an instance of the theorem on it.
use solace_broker_mcp.Common.{key_eq, ◌≡◌, refl, [], ◌∷◌, none, ◌↔◌}
use solace_broker_mcp.Common.Texts.{is_text}
use solace_broker_mcp.Common.Result.{ok}
use solace_broker_mcp.Common.Json.{text, object, Object, end, field, get, set, Keys}
use solace_broker_mcp.Composite.Checks.{run_body_checks}
use solace_broker_mcp.Composite.Body.{
  Operation, construct_request_body, merge, add_param, spread, set_field, set_missing, non_body,
  has_body, checked, known_fields,
}
use solace_broker_mcp.Composite.Body.Merged.{sources, Placed, merge-sources}

abbrev params : Object
params =
    field "msgVpnName" (text "v")
      (field "queueConfig" (object (field "queueName" (text "q") end)) end)

abbrev operation : Operation
operation = record {
  id = "createMsgVpnQueue";
  parameters =
      record { name = "msgVpnName"; location = "path" }
      ∷ record { name = "body"; location = "body" }
      ∷ [];
  body_fields = none;
}

construct_request_body_test :
    construct_request_body is_text operation end params []
    ≡ ok (field "body" (object (field "queueName" (text "q") end)) end)
unfolding construct_request_body has_body non_body merge add_param spread set_field set_missing
    checked run_body_checks known_fields get set key_eq
construct_request_body_test = refl

merge-sources_example :
    (merge (non_body operation.parameters) params end ≡ ok (field "queueName" (text "q") end)) ↔ (
      (field "queueName" (text "q") end ≡ sources (non_body operation.parameters) params)
      × Keys (sources (non_body operation.parameters) params)
      × Placed (non_body operation.parameters) params)
merge-sources_example =
    merge-sources (non_body operation.parameters) params (field "queueName" (text "q") end)
