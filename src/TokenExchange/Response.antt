-- ===== src/TokenExchange/Response.antt =====
-- internal/tokenexchange/response.go: what is made of an answer of the identity provider. Times are
-- nanoseconds. The decoding of JSON, `mime.ParseMediaType`, `strings.EqualFold`, `strings.TrimSpace`,
-- `strconv.ParseInt` and `http.ParseTime` have their results as arguments.
use Prim.Native.String.{len}
use solace_broker_mcp.Common.{
  ℕ, zero, suc, ◌+◌, ◌-◌, ◌*◌, String, Bool, true, false, not, ◌&&◌, ◌||◌, Option, none, some, ltb,
  leb, ◌==◌, if◌then◌else◌,
}
use solace_broker_mcp.Common.Integer.{ℤ, pos, negsuc}
use solace_broker_mcp.Common.Texts.{is_text}
use solace_broker_mcp.Common.Result.{Result, ok, err, ◌>>=◌}
use solace_broker_mcp.TokenExchange.{
  FailureClass, class_none, upstream5xx, rate_limited, body_read, RetryAfter,
}

pub data Sentinel : Type 0 where
  request_build transport rejected invalid_response : Sentinel
  retries_exhausted exchange_rate_limited circuit_open : Sentinel

-- `ExchangeError` without its text.
pub record ExchangeError : Type 0 where
  pub sentinel : Sentinel
  pub http_status : ℕ
  pub failure_class : FailureClass
  pub retry_after : Option RetryAfter

pub record Token : Type 0 where
  pub value : String
  pub expires_at : ℕ

pub record SuccessResponse : Type 0 where
  pub access_token : String
  pub token_type : String
  pub issued_token_type : String
  pub expires_in : ℤ

pub record ParsedSuccess : Type 0 where
  pub token : Token
  pub used_fallback : Bool

abbrev pub second : ℕ
second = 1000000000

abbrev pub max_expires_in_seconds : ℕ
max_expires_in_seconds = 3153600000

abbrev pub default_token_expiry_skew : ℕ
default_token_expiry_skew = 30000000000

abbrev pub max_echoed_field_len : ℕ
max_echoed_field_len = 64

abbrev pub invalid : ℕ → ExchangeError
invalid status = record {
  sentinel = invalid_response;
  http_status = status;
  failure_class = class_none;
  retry_after = none;
}

-- What the exchanger is configured with: the type of grant, 0 the fallback for "none".
pub record Settings : Type 0 where
  pub grant_is_token_exchange : Bool
  pub token_expiry_fallback : ℕ

-- The lifetime of the token, and whether it is the fallback.
unfoldable pub lifetime_of : Settings → ℤ → Result ExchangeError (ℕ × Bool)
lifetime_of e (negsuc n) = err (invalid 0)
lifetime_of e (pos zero) =
    if e.token_expiry_fallback == 0 then err (invalid 0) else ok (e.token_expiry_fallback, true)
lifetime_of e (pos (suc n)) =
    if ltb max_expires_in_seconds (suc n) then err (invalid 0) else ok (suc n * second, false)

unfoldable pub parse_success_body :
    (equal_fold : String → String → Bool)
    → Settings
    → Option SuccessResponse
    → ℕ
    → Result ExchangeError ParsedSuccess
parse_success_body equal_fold e none now = err (invalid 0)
parse_success_body equal_fold e (some sr) now =
    if is_text sr.access_token ""
    then err (invalid 0)
    else if not (equal_fold sr.token_type "Bearer")
    then err (invalid 0)
    else if e.grant_is_token_exchange
        && not (is_text sr.issued_token_type "urn:ietf:params:oauth:token-type:access_token")
    then err (invalid 0)
    else (lifetime_of e sr.expires_in >>= λ l. ok (record {
      token = record {
        value = sr.access_token;
        expires_at = now + l.0 - default_token_expiry_skew;
      };
      used_fallback = l.1;
    }))

-- The header of a 429: its first value, the number in it if it is one, and the date if it is one.
unfoldable pub parse_retry_after : Option String → Option ℤ → Option ℕ → ℕ → RetryAfter
parse_retry_after none seconds date now = record { ok = false; delay = 0 }
parse_retry_after (some raw) (some (negsuc n)) date now =
    if is_text raw "" then record { ok = false; delay = 0 } else record { ok = true; delay = 0 }
parse_retry_after (some raw) (some (pos n)) date now =
    if is_text raw ""
    then record { ok = false; delay = 0 }
    else if ltb max_expires_in_seconds n
    then record { ok = false; delay = 0 }
    else record { ok = true; delay = n * second }
parse_retry_after (some raw) none (some when) now =
    if is_text raw ""
    then record { ok = false; delay = 0 }
    else record { ok = true; delay = when - now }
parse_retry_after (some raw) none none now = record { ok = false; delay = 0 }

-- The OAuth error code in the body of a 4xx, if the body could be read as one.
unfoldable pub classify_client_error : Option String → ℕ → ExchangeError
classify_client_error none status = invalid status
classify_client_error (some code) status =
    if is_text code "" || ltb max_echoed_field_len (len code)
    then invalid status
    else record (invalid status) { sentinel = rejected }

-- A response: the status, the body as a success and as an error, the media type ("" if there is none
-- to be read) and what the header for Retry-After holds.
pub record IdpResponse : Type 0 where
  pub status_code : ℕ
  pub body_readable : Bool
  pub success : Option SuccessResponse
  pub error_code : Option String
  pub media_type : String
  pub retry_header : Option String
  pub retry_seconds : Option ℤ
  pub retry_date : Option ℕ

unfoldable pub transport_error : ℕ → FailureClass → Option RetryAfter → ExchangeError
transport_error status class after = record {
  sentinel = transport;
  http_status = status;
  failure_class = class;
  retry_after = after;
}

unfoldable pub parse_idp_response :
    (equal_fold : String → String → Bool)
    → Settings
    → IdpResponse
    → ℕ
    → Result ExchangeError ParsedSuccess
parse_idp_response equal_fold e resp now =
    if not resp.body_readable
    then err (transport_error 0 body_read none)
    else if leb 200 resp.status_code && ltb resp.status_code 300
    then (if not (is_text resp.media_type "") && not (is_text resp.media_type "application/json")
        then err (invalid resp.status_code)
        else parse_success_body equal_fold e resp.success now)
    else if resp.status_code == 429
    then err (
        transport_error 429 rate_limited
          (some (parse_retry_after resp.retry_header resp.retry_seconds resp.retry_date now)))
    else if leb 400 resp.status_code && ltb resp.status_code 500
    then err (classify_client_error resp.error_code resp.status_code)
    else err (transport_error resp.status_code upstream5xx none)
