-- ===== src/Tools/Shown.antt =====
-- buildErrorMessage of internal/tools/errors.go: when the agent sees words of the broker's.
use solace_broker_mcp.Common.{
  ℕ, String, Bool, true, false, not, List, [], ◌∷◌, Option, none, some, ◌≡◌, ◌≢◌, refl, arith,
  if_cases, ◌==◌,
}
use solace_broker_mcp.Tools.{
  Part, own, number, from_broker, SempKind, execute_fail, parse_error, permission, limit, http,
  unknown_kind, SempV2Error, SempV1Error, RetriesError, ToolError, body_error, describe_error,
  owner_not_found, owner_check_failed, broker_busy, retries_failed, exchange_failed, semp_v2,
  semp_v1, internal_error, Texts, broker_text_may_be_shown, broker_access_message,
  build_semp_v2_message, build_semp_v1_message, retries_message, with_hint, or_access,
  build_error_message, permission_denied_code,
}

-- Whether some part of a message is the broker's.
unfoldable pub quotes : List Part → Bool
quotes [] = false
quotes (from_broker s ∷ parts) = true
quotes (own s ∷ parts) = quotes parts
quotes (number n ∷ parts) = quotes parts

pub shown_kind : SempKind → Bool
shown_kind http = false
shown_kind unknown_kind = false
shown_kind _ = true

-- Whether the broker's own words about an error may be shown: not those of a server's fault, other than
-- 503, and of a SEMPv1 error only those about a command that failed.
pub may_quote : ToolError → Bool
may_quote (semp_v2 e) = broker_text_may_be_shown e.status_code
may_quote (retries_failed e) = broker_text_may_be_shown e.status_code
may_quote (semp_v1 e) = shown_kind e.kind
may_quote (owner_check_failed kind cause) = may_quote cause
may_quote _ = false

module _ (texts : Texts) where
  -- A message that quotes the broker is one about an error of which the words may be shown.
  abbrev Allowed : Bool → List Part → Type 0
  Allowed b message = quotes message ≡ true → b ≡ true

  semp_v2-Allowed :
      (e : SempV2Error)
      → Allowed (broker_text_may_be_shown e.status_code) (build_semp_v2_message texts e)
  unfolding build_semp_v2_message quotes
  semp_v2-Allowed e =
      if_cases (Allowed (broker_text_may_be_shown e.status_code))
        (not (broker_text_may_be_shown e.status_code)) _ _ (λ h q. cc) (λ h q. ground arith)

  retries-Allowed :
      (e : RetriesError) (alias : String)
      → Allowed (broker_text_may_be_shown e.status_code) (retries_message texts e alias)
  unfolding retries_message quotes
  retries-Allowed e alias = ground arith

  access-quotes :
      (alias : String) (status : ℕ) (denied https_port : Bool) (message : List Part)
      → broker_access_message alias status denied https_port ≡ some message
      → quotes message ≡ false
  unfolding broker_access_message quotes
  access-quotes alias status denied https_port message h = ground arith

  semp_v1-Allowed :
      (kind : SempKind) (e : SempV1Error)
      → Allowed (shown_kind kind) (build_semp_v1_message texts kind e)
  unfolding build_semp_v1_message quotes shown_kind
  semp_v1-Allowed execute_fail e q = refl
  semp_v1-Allowed parse_error e q = refl
  semp_v1-Allowed permission e q = refl
  semp_v1-Allowed limit e q = refl
  semp_v1-Allowed http e q = ground arith
  semp_v1-Allowed unknown_kind e q = cc

  both : {b : Bool} → b ≡ true → b ≢ false
  both p q = cc

  or_access-Allowed :
      (b : Bool) (access : Option (List Part)) (rest : List Part × Option String)
      → ((message : List Part) → access ≡ some message → quotes message ≡ false)
      → Allowed b rest.0
      → Allowed b (or_access texts access rest).0
  unfolding or_access
  or_access-Allowed b none rest a h q = h q
  or_access-Allowed b (some message) rest a h q = absurd (both q (a message refl))

  with_hint-Allowed :
      (b : Bool) (status code : ℕ) (message : List Part)
      → Allowed b message
      → Allowed b (with_hint texts status code message).0
  unfolding with_hint
  with_hint-Allowed b status code message h =
      if_cases (λ (r : List Part × Option String). Allowed b r.0) (broker_text_may_be_shown status)
        _ _ (λ _. h) (λ _. h)

  -- The message for an error quotes the broker only where its words may be shown: never those about a
  -- server's fault other than 503, and of a SEMPv1 error only those about a command that failed.
  pub build_error_message-Allowed :
      (e : ToolError) (alias : String) → Allowed (may_quote e) (build_error_message texts e alias).0
  unfolding build_error_message may_quote quotes
  build_error_message-Allowed (body_error t) alias q = cc
  build_error_message-Allowed (describe_error t) alias q = cc
  build_error_message-Allowed (owner_not_found t) alias q = cc
  build_error_message-Allowed (owner_check_failed kind cause) alias q =
      build_error_message-Allowed cause alias q
  build_error_message-Allowed (broker_busy wait) alias q = cc
  build_error_message-Allowed (retries_failed e) alias q = retries-Allowed e alias q
  build_error_message-Allowed (exchange_failed transport message) alias q = cc
  build_error_message-Allowed (semp_v2 e) alias q =
      or_access-Allowed (broker_text_may_be_shown e.status_code) _ _
        (λ message h.
          access-quotes alias e.status_code (e.semp_code == permission_denied_code)
            e.names_https_port message h)
        (with_hint-Allowed _ e.status_code e.semp_code _ (semp_v2-Allowed e)) q
  build_error_message-Allowed (semp_v1 e) alias q =
      or_access-Allowed (shown_kind e.kind) _ _
        (λ message h.
          ground (arith, access-quotes alias e.status_code false e.names_https_port message, h))
        (with_hint-Allowed _ e.status_code e.reason_code _ (semp_v1-Allowed e.kind e)) q
  build_error_message-Allowed internal_error alias q = cc
