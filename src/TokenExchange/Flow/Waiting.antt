-- ===== src/TokenExchange/Flow/Waiting.antt =====
-- What a 429 of the provider does to the calls of `Exchange` of internal/tokenexchange/exchange.go that
-- come after it.
use solace_broker_mcp.Common.{
  ℕ, suc, ◌+◌, ◌≤◌, ◌<◌, ◌≡◌, refl, sym, ap, subst, ◌∙◌, String, Bool, true, false, none,
  if◌then◌else◌,
}
use solace_broker_mcp.Common.Assoc.{find}
use solace_broker_mcp.Common.Result.{Result, err}
use solace_broker_mcp.TokenExchange.{clamp_retry_after}
use solace_broker_mcp.TokenExchange.Response.{
  IdpResponse, Settings, Token, parse_retry_after, transport_error,
}
use solace_broker_mcp.TokenExchange.Cache.{cache_get}
use solace_broker_mcp.TokenExchange.Exchange.{
  CallError, caller_abandoned, responded, State, Provider, Caller, run_exchange_once,
  run_protected_exchange, exchange_missed, on_lookup, exchange_token, map_error, map_circuit_open,
}
use solace_broker_mcp.TokenExchange.Flow.{
  rate_limited_error, protected_waits, Quiet, exchange_token-Asked,
}

module _ (equal_fold : String → String → Bool) (settings : Settings) where
  one_state :
      (b : Bool) (s : State) (x y : Result CallError Token)
      → ◌≡◌ {A = State × Result CallError Token}
          (if b then (s, x) else (s, y))
          (s, if b then x else y)
  one_state true s x y = refl
  one_state false s x y = refl

  -- What a caller without a token gets while the gate is closed.
  abbrev pub waiting_answer : Caller → Result CallError Token
  waiting_answer c =
      if c.gone_at_result
      then err caller_abandoned
      else err (rate_limited_error equal_fold settings)

  missed_waits :
      (c : Caller) (s : State) (t : ℕ) (key : String) (p : Provider)
      → run_protected_exchange equal_fold settings s t key p
        ≡ (s, err (rate_limited_error equal_fold settings))
      → exchange_missed equal_fold settings c s t key p ≡ (s, waiting_answer c)
  unfolding exchange_missed map_error map_circuit_open transport_error
  missed_waits c s t key p h =
      ap (λ r. if c.gone_at_result then (r.0, err caller_abandoned) else (r.0, map_error r.1)) h
      ∙ one_state c.gone_at_result s (err caller_abandoned)
          (err (rate_limited_error equal_fold settings))

  token_waits :
      (c : Caller) (s : State) (t : ℕ) (key : String) (p : Provider)
      → c.gone_at_entry ≡ false
      → cache_get t (find key s.held) ≡ none
      → run_protected_exchange equal_fold settings s t key p
        ≡ (s, err (rate_limited_error equal_fold settings))
      → exchange_token equal_fold settings c s t key p ≡ (s, waiting_answer c)
  unfolding exchange_token on_lookup
  token_waits c s t key p entry miss h =
      ap
        (λ b.
          if b
          then (s, err caller_abandoned)
          else on_lookup equal_fold settings c s t key p (cache_get t (find key s.held)))
        entry
      ∙ ap (λ o. on_lookup equal_fold settings c s t key p o) miss
      ∙ missed_waits c s t key p h

  -- When a call of `Exchange` reaches the provider, uses up its attempts and meets a 429 with a
  -- Retry-After of one nanosecond or more, then until that time, clamped, every call of `Exchange` whose
  -- caller is there on entry and whose key has no token in the cache that has not expired gets the error
  -- for a rate limit, or that of a caller who is gone by then, and changes nothing.
  pub rate_limit-waits :
      (c c' : Caller) (s : State) (now t : ℕ) (key key' : String) (p p' : Provider)
      (resp : IdpResponse) (n : ℕ)
      → (Quiet equal_fold settings c s now key p → ⊥)
      → p.sent ≡ responded resp
      → p.attempts ≡ suc n
      → resp.body_readable ≡ true
      → resp.status_code ≡ 429
      → let r = parse_retry_after resp.retry_header resp.retry_seconds resp.retry_date now in
        let s' = (exchange_token equal_fold settings c s now key p).0 in
        r.ok ≡ true
        → 1 ≤ r.delay
        → t < now + (clamp_retry_after s.gate r.delay).0
        → c'.gone_at_entry ≡ false
        → cache_get t (find key' s'.held) ≡ none
        → exchange_token equal_fold settings c' s' t key' p' ≡ (s', waiting_answer c')
  rate_limit-waits c c' s now t key key' p p' resp n runs sent att b st o d lt entry miss =
      let s' = (exchange_token equal_fold settings c s now key p).0 in
      let ran : s' ≡ (run_exchange_once equal_fold settings s now key p).0 =
        (exchange_token-Asked equal_fold settings c s now key p).1 runs in
      token_waits c' s' t key' p' entry miss (
        subst
          (λ x.
            run_protected_exchange equal_fold settings x t key' p'
            ≡ (x, err (rate_limited_error equal_fold settings)))
          (sym ran)
          (protected_waits equal_fold settings s now t key key' p p' resp n sent att b st o d lt))
