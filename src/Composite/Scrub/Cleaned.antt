-- ===== src/Composite/Scrub/Cleaned.antt =====
-- What is left of a response after scrubEnvelope: nothing of the broker's addresses in it, its data as
-- they were, and nothing for a second run to do.
use solace_broker_mcp.Common.{
  ◌≢◌, key_eq, String, true, false, ◌≡◌, refl, ap, arith, Option, some, none, if_cases, subst, ◌∙◌,
}
use solace_broker_mcp.Common.Texts.{ends_with}
use solace_broker_mcp.Common.Json.{
  Json, null, boolean, number, text, array, object, Object, end, field, get,
}
use solace_broker_mcp.Composite.Scrub.{
  key_is, is_uri_key, scrub_uri_fields, scrub_uri_value, scrub_envelope, scrub_value, scrub_rows,
  scrub_row, NoUri, NoUriValue, Clean, CleanValue, CleanRows, CleanRow,
}

key_is-true : (k name : String) → key_is k name ≡ true → k ≡ name
key_is-true k name h = ground arith

key_is-false : (k name : String) → key_is k name ≡ false → k ≢ name
key_is-false k name h = ground arith

key_is_not : (k name : String) → k ≢ name → key_is k name ≡ false
key_is_not k name h = ground arith

not_uri_key : (k : String) → is_uri_key k ≡ false → (k ≢ "uri") × (ends_with k "Uri" ≡ false)
unfolding is_uri_key
not_uri_key k h = (key_is-false k "uri" (ground arith), ground arith)

plain_key : (k : String) → k ≢ "uri" → ends_with k "Uri" ≡ false → is_uri_key k ≡ false
unfolding is_uri_key
plain_key k u e = ground (arith, key_is_not k "uri" u)

-- The rows are not the metadata.
meta-by_key : (k : String) → key_is k "meta" ≡ true → k ≢ "byKey"
unfolding key_eq
meta-by_key k m b =
    let other : key_is "byKey" "meta" ≡ false = refl in
    let same : key_is "byKey" "meta" ≡ true = subst (λ j. key_is j "meta" ≡ true) b m in absurd cc

mutual
  unfolding scrub_uri_fields NoUri

  scrub_uri_fields_clean : (o : Object) → NoUri (scrub_uri_fields o)
  scrub_uri_fields_clean end = tt
  scrub_uri_fields_clean (field k v o) =
      if_cases NoUri (is_uri_key k) (scrub_uri_fields o)
        (field k (scrub_uri_value v) (scrub_uri_fields o)) (λ e. scrub_uri_fields_clean o)
        (λ e.
          let (u, n) = not_uri_key k e in (u, n, scrub_uri_value_clean v, scrub_uri_fields_clean o))

  scrub_uri_value_clean : (v : Json) → NoUriValue (scrub_uri_value v)
  scrub_uri_value_clean (object o) = scrub_uri_fields_clean o
  scrub_uri_value_clean null = tt
  scrub_uri_value_clean (boolean b) = tt
  scrub_uri_value_clean (number n) = tt
  scrub_uri_value_clean (text s) = tt
  scrub_uri_value_clean (array a) = tt

mutual
  unfolding scrub_uri_fields NoUri

  scrub_uri_fields_same : (o : Object) → NoUri o → scrub_uri_fields o ≡ o
  scrub_uri_fields_same end h = refl
  scrub_uri_fields_same (field k v o) h =
      rw (plain_key k h.0 h.1, scrub_uri_value_same v h.2, scrub_uri_fields_same o h.3)

  scrub_uri_value_same : (v : Json) → NoUriValue v → scrub_uri_value v ≡ v
  scrub_uri_value_same (object o) h = ap object (scrub_uri_fields_same o h)
  scrub_uri_value_same null h = refl
  scrub_uri_value_same (boolean b) h = refl
  scrub_uri_value_same (number n) h = refl
  scrub_uri_value_same (text s) h = refl
  scrub_uri_value_same (array a) h = refl

mutual
  unfolding scrub_envelope Clean

  envelope-Clean : (o : Object) → Clean (scrub_envelope o)
  envelope-Clean end = tt
  envelope-Clean (field k v o) =
      if_cases Clean (key_is k "links") (scrub_envelope o)
        (field k (scrub_value k v) (scrub_envelope o)) (λ e. envelope-Clean o)
        (λ e. (key_is-false k "links" e, value_clean k v, envelope-Clean o))

  value_clean : (k : String) (v : Json) → CleanValue k (scrub_value k v)
  value_clean k (object o) =
      if_cases (CleanValue k) (key_is k "meta") _ _
        (λ e. ((λ _. scrub_uri_fields_clean o), (λ p. absurd (meta-by_key k e p))))
        (λ e.
          if_cases (CleanValue k) (key_is k "byKey") _ _
            (λ f. ((λ p. absurd (key_is-false k "meta" e p)), (λ _. rows_clean o)))
            (λ f. (
              (λ p. absurd (key_is-false k "meta" e p)),
              (λ p. absurd (key_is-false k "byKey" f p)),
            )))
  value_clean k null = tt
  value_clean k (boolean b) = tt
  value_clean k (number n) = tt
  value_clean k (text s) = tt
  value_clean k (array a) = tt

  rows_clean : (o : Object) → CleanRows (scrub_rows o)
  rows_clean end = tt
  rows_clean (field k v o) = (row_clean v, rows_clean o)

  row_clean : (v : Json) → CleanRow (scrub_row v)
  row_clean (object o) = envelope-Clean o
  row_clean null = tt
  row_clean (boolean b) = tt
  row_clean (number n) = tt
  row_clean (text s) = tt
  row_clean (array a) = tt

mutual
  unfolding scrub_envelope Clean

  envelope_same : (o : Object) → Clean o → scrub_envelope o ≡ o
  envelope_same end h = refl
  envelope_same (field k v o) h =
      rw (key_is_not k "links" h.0, value_same k v h.1, envelope_same o h.2)

  value_same : (k : String) (v : Json) → CleanValue k v → scrub_value k v ≡ v
  value_same k (object o) h =
      if_cases (λ v. v ≡ object o) (key_is k "meta") _ _
        (λ e. ap object (scrub_uri_fields_same o (h.0 (key_is-true k "meta" e))))
        (λ e.
          if_cases (λ v. v ≡ object o) (key_is k "byKey") _ _
            (λ f. ap object (rows_same o (h.1 (key_is-true k "byKey" f)))) (λ f. refl))
  value_same k null h = refl
  value_same k (boolean b) h = refl
  value_same k (number n) h = refl
  value_same k (text s) h = refl
  value_same k (array a) h = refl

  rows_same : (o : Object) → CleanRows o → scrub_rows o ≡ o
  rows_same end h = refl
  rows_same (field k v o) h = rw (row_same v h.0, rows_same o h.1)

  row_same : (v : Json) → CleanRow v → scrub_row v ≡ v
  row_same (object o) h = ap object (envelope_same o h)
  row_same null h = refl
  row_same (boolean b) h = refl
  row_same (number n) h = refl
  row_same (text s) h = refl
  row_same (array a) h = refl

-- A scrubbed response has no `links`; no key in its `meta`, nor in the objects below it that are reached
-- without passing through an array, is `uri` or ends in `Uri`; and the same holds of each object under
-- its `byKey`.
pub scrub_envelope-Clean : (response : Object) → Clean (scrub_envelope response)
scrub_envelope-Clean response = envelope-Clean response

-- Scrubbing a response a second time changes nothing.
pub scrub_idempotent :
    (response : Object) → scrub_envelope (scrub_envelope response) ≡ scrub_envelope response
scrub_idempotent response = envelope_same (scrub_envelope response) (envelope-Clean response)

abbrev scrub_found : String → Option Json → Option Json
scrub_found k none = none
scrub_found k (some v) = some (scrub_value k v)

-- Scrubbing answers for each key but `links` as before, with the value scrubbed for its key.
pub get-scrub_envelope :
    (k : String) (response : Object)
    → key_is k "links" ≡ false
    → get k (scrub_envelope response) ≡ scrub_found k (get k response)
unfolding scrub_envelope get
get-scrub_envelope k end h = refl
get-scrub_envelope k (field j v o) h = ground (arith, get-scrub_envelope k o h)

scrub_found_plain :
    (k : String) (v : Option Json)
    → key_is k "meta" ≡ false
    → key_is k "byKey" ≡ false
    → scrub_found k v ≡ v
unfolding scrub_envelope
scrub_found_plain k none m b = refl
scrub_found_plain k (some (object o)) m b = rw (m, b) refl
scrub_found_plain k (some null) m b = refl
scrub_found_plain k (some (boolean c)) m b = refl
scrub_found_plain k (some (number n)) m b = refl
scrub_found_plain k (some (text s)) m b = refl
scrub_found_plain k (some (array a)) m b = refl

-- A key of a response other than `links`, `meta` and `byKey`, such as `data`, keeps its value.
pub scrub_keeps :
    (k : String) (response : Object)
    → key_is k "links" ≡ false
    → key_is k "meta" ≡ false
    → key_is k "byKey" ≡ false
    → get k (scrub_envelope response) ≡ get k response
scrub_keeps k response l m b =
    get-scrub_envelope k response l ∙ scrub_found_plain k (get k response) m b
