-- ===== src/TokenExchange/Flow/Tests.antt =====
-- Calls of `Exchange` on small inputs, and an instance of each theorem on them.
use solace_broker_mcp.Common.{
  ℕ, ◌+◌, ◌<◌, ◌≡◌, ◌≢◌, refl, String, key_eq, Bool, true, false, [], Option, none, some, arith,
  inl, inr,
}
use solace_broker_mcp.Common.Assoc.{find}
use solace_broker_mcp.Common.Integer.{ℤ, pos}
use solace_broker_mcp.Common.Texts.{is_text}
use solace_broker_mcp.Common.Result.{ok}
use solace_broker_mcp.TokenExchange.{gate_check, clamp_retry_after}
use solace_broker_mcp.TokenExchange.Response.{
  IdpResponse, Settings, SuccessResponse, ParsedSuccess, parse_retry_after, parse_idp_response,
  parse_success_body, lifetime_of, default_token_expiry_skew,
}
use solace_broker_mcp.TokenExchange.Cache.{cache_get}
use solace_broker_mcp.TokenExchange.Exchange.{
  State, Provider, Caller, responded, do_exchange, as_call, run_exchange_once,
  run_protected_exchange, exchange_token, on_lookup, exchange_missed, if_admitted, finish_exchange,
}
use solace_broker_mcp.TokenExchange.Flow.{Quiet, exchange-requests}
use solace_broker_mcp.TokenExchange.Flow.Waiting.{waiting_answer, rate_limit-waits}
use solace_broker_mcp.TokenExchange.Lifetimes.{Selected, served-early}

abbrev settings : Settings
settings = record { grant_is_token_exchange = false; token_expiry_fallback = 0 }

abbrev start : State
start = record {
  gate = record { gated_until = 0; max_honored_retry_after = 0 };
  held = [];
  requests = 0;
}

abbrev answer : ℕ → Option SuccessResponse → Option String → Option ℤ → IdpResponse
answer status success header seconds = record {
  status_code = status;
  body_readable = true;
  success = success;
  error_code = none;
  media_type = "application/json";
  retry_header = header;
  retry_seconds = seconds;
  retry_date = none;
}

abbrev meeting : IdpResponse → Provider
meeting resp = record {
  sent = responded resp;
  attempts = 3;
  max_ttl = 3600000000000;
  refusal = none;
}

abbrev too_many : IdpResponse
too_many = answer 429 none (some "5") (some (pos 5))

abbrev issued : SuccessResponse
issued = record {
  access_token = "t";
  token_type = "Bearer";
  issued_token_type = "";
  expires_in = pos 300;
}

abbrev good : IdpResponse
good = answer 200 (some issued) none none

abbrev token_parsed : ParsedSuccess
token_parsed = record {
  token = record { value = "t"; expires_at = 270000000100 };
  used_fallback = false;
}

delay_read :
    parse_retry_after too_many.retry_header too_many.retry_seconds too_many.retry_date 100
    ≡ record { ok = true; delay = 5000000000 }
unfolding parse_retry_after key_eq
delay_read = refl

abbrev staying : Caller
staying = record { gone_at_entry = false; gone_at_hit = false; gone_at_result = false }

asking : Quiet is_text settings staying start 100 "k" (meeting too_many) → ⊥
unfolding cache_get gate_check find
asking (inl gone) = cc
asking (inr (inl held)) = held refl
asking (inr (inr (inl shut))) = cc
asking (inr (inr (inr refused))) = refused refl

rate_limit-waits_example :
    let s' = (exchange_token is_text settings staying start 100 "k" (meeting too_many)).0 in
    exchange_token is_text settings staying s' 200 "j" (meeting good)
    ≡ (s', waiting_answer is_text settings staying)
unfolding parse_retry_after key_eq clamp_retry_after cache_get exchange_token on_lookup
    exchange_missed run_protected_exchange gate_check if_admitted run_exchange_once finish_exchange
    do_exchange parse_idp_response as_call find
rate_limit-waits_example =
    rate_limit-waits is_text settings staying staying start 100 200 "k" "j" (meeting too_many)
      (meeting good) too_many 2 asking refl refl refl refl refl (omega arith) (omega arith) refl
      refl

abbrev gate_shut : State
gate_shut = record start { gate = record { gated_until = 500; max_honored_retry_after = 0 } }

exchange-requests_example :
    let s' = (exchange_token is_text settings staying gate_shut 100 "k" (meeting good)).0 in
    (Quiet is_text settings staying gate_shut 100 "k" (meeting good) → s' ≡ gate_shut)
    × ((Quiet is_text settings staying gate_shut 100 "k" (meeting good) → ⊥)
        → (s' ≡ (run_exchange_once is_text settings gate_shut 100 "k" (meeting good)).0)
          × (s'.requests ≡ 0 + 3))
exchange-requests_example =
    exchange-requests is_text settings staying gate_shut 100 "k" (meeting good)

parsed_body : parse_success_body is_text settings (some issued) 100 ≡ ok token_parsed
unfolding parse_success_body lifetime_of key_eq
parsed_body = refl

hit_there : cache_get 200000000000 (some token_parsed.token) ≡ some token_parsed.token
unfolding cache_get
hit_there = refl

hit_here : cache_get 200000000000 (some token_parsed.token) ≢ none
hit_here h = cc (h, hit_there)

served-early_example :
    (l : ℕ × Bool) × Selected settings (pos 300) l
    × (200000000000 + default_token_expiry_skew < 100 + l.0)
served-early_example =
    served-early is_text settings issued 100 token_parsed 200000000000 parsed_body hit_here
