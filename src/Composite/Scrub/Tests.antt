-- ===== src/Composite/Scrub/Tests.antt =====
-- A response that is scrubbed, and instances of the theorems on it.
use solace_broker_mcp.Common.{◌≡◌, refl, key_eq, false, []}
use solace_broker_mcp.Common.Json.{text, array, object, Object, end, field, array_of}
use solace_broker_mcp.Composite.Scrub.{scrub_envelope, scrub_uri_fields, is_uri_key, Clean, key_is}
use solace_broker_mcp.Composite.Scrub.Cleaned.{scrub_envelope-Clean}

abbrev response : Object
response = field "links" (array (array_of [])) (
    field "meta"
      (object
        (field "request" (object (field "uri" (text "u") (field "method" (text "GET") end))) end))
      (field "data" (object (field "uri" (text "kept") end)) end))

abbrev scrubbed : Object
scrubbed =
    field "meta" (object (field "request" (object (field "method" (text "GET") end)) end))
      (field "data" (object (field "uri" (text "kept") end)) end)

scrub_test : scrub_envelope response ≡ scrubbed
unfolding scrub_envelope scrub_uri_fields is_uri_key key_eq
scrub_test = refl

not_links : key_is "data" "links" ≡ false
unfolding key_eq
not_links = refl

not_meta : key_is "data" "meta" ≡ false
unfolding key_eq
not_meta = refl

not_rows : key_is "data" "byKey" ≡ false
unfolding key_eq
not_rows = refl

scrub_envelope-Clean_example : Clean (scrub_envelope response)
scrub_envelope-Clean_example = scrub_envelope-Clean response
