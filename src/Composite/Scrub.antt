-- ===== src/Composite/Scrub.antt =====
-- internal/semp/sempv2/envelope.go and scrubEnvelope of internal/composite/executor.go: what a caller
-- must not see of the broker's own addresses is taken out of a response.
pub mod Cleaned
mod Tests
use solace_broker_mcp.Common.{
  String, Bool, true, false, ◌||◌, ◌≡◌, ◌≢◌, refl, ap, ite, key_eq, arith, Option, some, none,
  if◌then◌else◌, Bool-cases, inl, inr, ◌⊎◌,
}
use solace_broker_mcp.Common.Texts.{ends_with}
use solace_broker_mcp.Common.Json.{
  Json, null, boolean, number, text, array, object, Object, end, field, get, delete, Keys,
}

-- Equality with a literal key.
abbrev key_is : String → String → Bool
key_is k name = elim (key_eq k name) [ yes _ ↦ true | no _ ↦ false ]

pub is_uri_key : String → Bool
is_uri_key k = key_is k "uri" || ends_with k "Uri"

-- `scrubURIFields`, on an object and on the value of a key.
unfoldable mutual
  pub scrub_uri_fields : Object → Object
  scrub_uri_fields end = end
  scrub_uri_fields (field k v o) =
      if is_uri_key k then scrub_uri_fields o else field k (scrub_uri_value v) (scrub_uri_fields o)

  pub scrub_uri_value : Json → Json
  scrub_uri_value (object o) = object (scrub_uri_fields o)
  scrub_uri_value v = v

-- `scrubEnvelope` and `ScrubEnvelope`, which it calls, in one walk over the keys of the object: `links`
-- goes, `meta` is scrubbed, and the rows under `byKey` are envelopes again.
unfoldable mutual
  pub scrub_envelope : Object → Object
  scrub_envelope end = end
  scrub_envelope (field k v o) =
      if key_is k "links" then scrub_envelope o else field k (scrub_value k v) (scrub_envelope o)

  pub scrub_value : String → Json → Json
  scrub_value k (object o) =
      if key_is k "meta"
      then object (scrub_uri_fields o)
      else if key_is k "byKey"
      then object (scrub_rows o)
      else object o
  scrub_value k v = v

  pub scrub_rows : Object → Object
  scrub_rows end = end
  scrub_rows (field k v o) = field k (scrub_row v) (scrub_rows o)

  pub scrub_row : Json → Json
  scrub_row (object o) = object (scrub_envelope o)
  scrub_row v = v

-- No key of the object, nor of an object that is a value in it, and so on, is `uri` or ends in `Uri`.
-- The elements of an array are not looked at.
unfoldable mutual
  pub NoUri : Object → Type 0
  NoUri end = Unit
  NoUri (field k v o) = (k ≢ "uri") × (ends_with k "Uri" ≡ false) × NoUriValue v × NoUri o

  pub NoUriValue : Json → Type 0
  NoUriValue (object o) = NoUri o
  NoUriValue _ = Unit

-- An envelope that may be shown: no `links`, no URI in `meta`, and the same of each row.
unfoldable mutual
  pub Clean : Object → Type 0
  Clean end = Unit
  Clean (field k v o) = (k ≢ "links") × CleanValue k v × Clean o

  pub CleanValue : String → Json → Type 0
  CleanValue k (object o) = (k ≡ "meta" → NoUri o) × (k ≡ "byKey" → CleanRows o)
  CleanValue k _ = Unit

  pub CleanRows : Object → Type 0
  CleanRows end = Unit
  CleanRows (field k v o) = CleanRow v × CleanRows o

  pub CleanRow : Json → Type 0
  CleanRow (object o) = Clean o
  CleanRow _ = Unit
