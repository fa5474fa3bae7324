-- ===== src/TokenExchange/Flow.antt =====
-- What a call of `Exchange` of internal/tokenexchange/exchange.go does for the calls after it: a 429
-- keeps them from the provider for a while, a token is served to them until shortly before it expires.
pub mod Waiting
mod Tests
use solace_broker_mcp.Common.{
  ℕ, zero, suc, ◌+◌, ◌-◌, ◌*◌, ◌≤◌, ◌<◌, ◌≡◌, ◌≢◌, refl, sym, ap, subst, ◌∙◌, String, key_eq, Bool,
  true, false, not, ◌&&◌, ◌||◌, Option, none, some, ltb, leb, ◌==◌, if◌then◌else◌, arith, ◌⊎◌, inl,
  inr, Bool-cases, Option-cases, if_cases, ite,
}
use solace_broker_mcp.Common.Assoc.{Assoc, find, put}
use solace_broker_mcp.Common.Integer.{ℤ, pos, negsuc}
use solace_broker_mcp.Common.Result.{Result, ok, err, ◌>>=◌, bind-ok, OnOk, OnOk-bind, ok_of}
use solace_broker_mcp.TokenExchange.{
  FailureClass, class_none, rate_limited, Exchanger, Failure, exchange, gate_check,
  clamp_retry_after, raise_gate_on_exhausted_rate_limit, RetryAfter,
}
use solace_broker_mcp.TokenExchange.Gate.{rate_limit-closes}
use solace_broker_mcp.TokenExchange.Response.{
  Sentinel, transport, exchange_rate_limited, ExchangeError, Token, IdpResponse, Settings,
  parse_idp_response, parse_success_body, parse_retry_after, lifetime_of, transport_error,
  ParsedSuccess, SuccessResponse, second, default_token_expiry_skew,
}
use solace_broker_mcp.TokenExchange.Cache.{cache_get}
use solace_broker_mcp.TokenExchange.Exchange.{
  CallError, exchange_error, caller_abandoned, Sent, responded, do_exchange, as_call, if_admitted,
  classify_retry_outcome, as_failure, State, Provider, finish_exchange, run_exchange_once,
  run_protected_exchange, Caller, map_error, exchange_missed, on_lookup, exchange_token,
  map_circuit_open,
}

module _ (equal_fold : String → String → Bool) (settings : Settings) where
  -- The error of a call that the gate keeps from the provider.
  abbrev pub rate_limited_error : CallError
  rate_limited_error =
      exchange_error
        (record (transport_error 0 class_none none) { sentinel = exchange_rate_limited })

  parse_429 :
      (resp : IdpResponse) (now : ℕ)
      → resp.body_readable ≡ true
      → resp.status_code ≡ 429
      → parse_idp_response equal_fold settings resp now
        ≡ err (
            transport_error 429 rate_limited
              (some (parse_retry_after resp.retry_header resp.retry_seconds resp.retry_date now)))
  unfolding parse_idp_response
  parse_429 resp now b s = rw (b, s) refl

  gate_keeps_out :
      (s : State) (t : ℕ) (key : String) (p : Provider)
      → gate_check s.gate t ≡ true
      → run_protected_exchange equal_fold settings s t key p ≡ (s, err rate_limited_error)
  unfolding run_protected_exchange
  gate_keeps_out s t key p h = rw h refl

  exhausted_gate :
      (s : State) (now : ℕ) (key : String) (p : Provider) (n : ℕ) (r : RetryAfter)
      → p.attempts ≡ suc n
      → (finish_exchange s now key p
          (err (exchange_error (transport_error 429 rate_limited (some r))))).0.gate
        ≡ raise_gate_on_exhausted_rate_limit s.gate now (
            exchange (record {
              retries_exhausted = true;
              failure_class = rate_limited;
              retry_after = some r;
            }))
  unfolding finish_exchange classify_retry_outcome as_failure transport_error
  exhausted_gate s now key p n r e =
      ap
        (λ a. raise_gate_on_exhausted_rate_limit s.gate now (
          as_failure (
            classify_retry_outcome a (exchange_error (transport_error 429 rate_limited (some r))))))
        e

  once_429 :
      (s : State) (now : ℕ) (key : String) (p : Provider) (resp : IdpResponse)
      → p.sent ≡ responded resp
      → resp.body_readable ≡ true
      → resp.status_code ≡ 429
      → do_exchange equal_fold settings p.sent now
        ≡ err (
            exchange_error (
              transport_error 429 rate_limited (
                some (parse_retry_after resp.retry_header resp.retry_seconds resp.retry_date now))))
  unfolding do_exchange as_call
  once_429 s now key p resp sent b st =
      ap (λ q. do_exchange equal_fold settings q now) sent ∙ ap as_call (parse_429 resp now b st)

  -- After a run that met a 429 with a Retry-After, no protected exchange runs before that time.
  pub protected_waits :
      (s : State) (now t : ℕ) (key key' : String) (p p' : Provider) (resp : IdpResponse) (n : ℕ)
      → p.sent ≡ responded resp
      → p.attempts ≡ suc n
      → resp.body_readable ≡ true
      → resp.status_code ≡ 429
      → let r = parse_retry_after resp.retry_header resp.retry_seconds resp.retry_date now in
        r.ok ≡ true
        → 1 ≤ r.delay
        → t < now + (clamp_retry_after s.gate r.delay).0
        → let s' = (run_exchange_once equal_fold settings s now key p).0 in
          run_protected_exchange equal_fold settings s' t key' p' ≡ (s', err rate_limited_error)
  unfolding run_exchange_once
  protected_waits s now t key key' p p' resp n sent att b st o d lt =
      let r = parse_retry_after resp.retry_header resp.retry_seconds resp.retry_date now in
      let asked : State = record s { requests = s.requests + p.attempts } in
      let s' = (run_exchange_once equal_fold settings s now key p).0 in
      let gate_set : s'.gate
          ≡ raise_gate_on_exhausted_rate_limit s.gate now (
              exchange (record {
                retries_exhausted = true;
                failure_class = rate_limited;
                retry_after = some r;
              })) =
        ap (λ q. (finish_exchange asked now key p q).0.gate) (once_429 s now key p resp sent b st)
        ∙ exhausted_gate asked now key p n r att in
      let (_, _, _, closed) =
        rate_limit-closes s.gate now t
          (record { retries_exhausted = true; failure_class = rate_limited; retry_after = some r })
          r refl refl refl o d in
      gate_keeps_out s' t key' p' (elim closed [
        | inl late ↦ absurd (omega (arith, lt, late))
        | inr shut ↦ subst (λ g. gate_check g t ≡ true) (sym gate_set) shut
      ])

  -- No change if the provider is not asked, and otherwise what the exchange makes of the state.
  abbrev Asked : Type 0 → State → State → State × Result CallError Token → Type 0
  Asked quiet s ran r = (quiet → r.0 ≡ s) × ((quiet → ⊥) → r.0 ≡ ran)

  -- What keeps a call from the provider once its caller is there and has no token.
  abbrev pub Barred : State → ℕ → Provider → Type 0
  Barred s now p = (gate_check s.gate now ≡ true) ⊎ (p.refusal ≢ none)

  true-false : {b : Bool} → b ≡ true → b ≢ false
  true-false g e = cc

  if_admitted-Asked :
      (s : State) (now : ℕ) (key : String) (p : Provider) (o : Option CallError)
      → Asked
          (o ≢ none)
          s
          (run_exchange_once equal_fold settings s now key p).0
          (if_admitted equal_fold settings s now key p o)
  unfolding if_admitted
  if_admitted-Asked s now key p (some e) = (λ _. refl, λ n. absurd (n (λ h. absurd cc)))
  if_admitted-Asked s now key p none = (λ ne. absurd (ne refl), λ _. refl)

  run_protected-Asked :
      (s : State) (now : ℕ) (key : String) (p : Provider)
      → Asked
          (Barred s now p)
          s
          (run_exchange_once equal_fold settings s now key p).0
          (run_protected_exchange equal_fold settings s now key p)
  unfolding run_protected_exchange
  run_protected-Asked s now key p =
      if_cases (Asked (Barred s now p) s (run_exchange_once equal_fold settings s now key p).0)
        (gate_check s.gate now) _ _ (λ e. (λ _. refl, λ n. absurd (n (inl e))))
        (λ e.
          let (quiet, runs) = if_admitted-Asked s now key p p.refusal in
          (
            λ h. elim h [ inl g ↦ absurd (true-false g e) | inr ne ↦ quiet ne ],
            λ n. runs (λ ne. n (inr ne)),
          ))

  pub exchange_missed-Asked :
      (c : Caller) (s : State) (now : ℕ) (key : String) (p : Provider)
      → Asked
          (Barred s now p)
          s
          (run_exchange_once equal_fold settings s now key p).0
          (exchange_missed equal_fold settings c s now key p)
  unfolding exchange_missed
  exchange_missed-Asked c s now key p =
      if_cases (Asked (Barred s now p) s (run_exchange_once equal_fold settings s now key p).0)
        c.gone_at_result _ _ (λ e. run_protected-Asked s now key p)
        (λ e. run_protected-Asked s now key p)

  on_lookup-Asked :
      (c : Caller) (s : State) (now : ℕ) (key : String) (p : Provider) (o : Option Token)
      → Asked
          ((o ≢ none) ⊎ Barred s now p)
          s
          (run_exchange_once equal_fold settings s now key p).0
          (on_lookup equal_fold settings c s now key p o)
  unfolding on_lookup
  on_lookup-Asked c s now key p (some t) = (λ _. refl, λ n. absurd (n (inl (λ h. absurd cc))))
  on_lookup-Asked c s now key p none =
      let (quiet, runs) = exchange_missed-Asked c s now key p in
      (λ h. elim h [ inl ne ↦ absurd (ne refl) | inr q ↦ quiet q ], λ n. runs (λ q. n (inr q)))

  -- What keeps a call of `Exchange` from the provider.
  abbrev pub Quiet : Caller → State → ℕ → String → Provider → Type 0
  Quiet c s now key p =
      (c.gone_at_entry ≡ true)
      ⊎ (cache_get now (find key s.held) ≢ none)
      ⊎ (gate_check s.gate now ≡ true)
      ⊎ (p.refusal ≢ none)

  pub exchange_token-Asked :
      (c : Caller) (s : State) (now : ℕ) (key : String) (p : Provider)
      → Asked
          (Quiet c s now key p)
          s
          (run_exchange_once equal_fold settings s now key p).0
          (exchange_token equal_fold settings c s now key p)
  unfolding exchange_token
  exchange_token-Asked c s now key p =
      if_cases (Asked (Quiet c s now key p) s (run_exchange_once equal_fold settings s now key p).0)
        c.gone_at_entry _ _ (λ e. (λ _. refl, λ n. absurd (n (inl e))))
        (λ e.
          let (quiet, runs) = on_lookup-Asked c s now key p (cache_get now (find key s.held)) in
          (
            λ h. elim h [ inl g ↦ absurd (true-false g e) | inr q ↦ quiet q ],
            λ n. runs (λ q. n (inr q)),
          ))

  finish_requests :
      (s : State) (now : ℕ) (key : String) (p : Provider) (r : Result CallError ParsedSuccess)
      → (finish_exchange s now key p r).0.requests ≡ s.requests
  unfolding finish_exchange
  finish_requests s now key p (ok parsed) = refl
  finish_requests s now key p (err e) = refl

  -- A call whose caller is gone on entry, for whose key the cache has a token that has not expired, or
  -- that finds the gate closed or is refused by the breaker leaves everything as it is: the gate, what is
  -- cached and the requests that the provider has had. Any other call makes one exchange, as many
  -- requests as the HTTP client makes attempts, and leaves what that exchange leaves.
  pub exchange-requests :
      (c : Caller) (s : State) (now : ℕ) (key : String) (p : Provider)
      → let s' = (exchange_token equal_fold settings c s now key p).0 in
        (Quiet c s now key p → s' ≡ s)
        × ((Quiet c s now key p → ⊥)
            → (s' ≡ (run_exchange_once equal_fold settings s now key p).0)
              × (s'.requests ≡ s.requests + p.attempts))
  unfolding run_exchange_once
  exchange-requests c s now key p =
      let (quiet, runs) = exchange_token-Asked c s now key p in
      (
        quiet,
        λ n. (
          runs n,
          ap (λ x. x.requests) (runs n)
              ∙ finish_requests (record s { requests = s.requests + p.attempts }) now key p
                  (do_exchange equal_fold settings p.sent now),
        ),
      )

  fresh_hit : (t : ℕ) (token : Token) → t < token.expires_at → cache_get t (some token) ≡ some token
  unfolding cache_get
  fresh_hit t token lt = ground arith

  served :
      (c : Caller) (s : State) (t : ℕ) (key : String) (p : Provider) (token : Token)
      → find key s.held ≡ some token
      → t < token.expires_at
      → c.gone_at_entry ≡ false
      → c.gone_at_hit ≡ false
      → exchange_token equal_fold settings c s t key p ≡ (s, ok token)
  unfolding exchange_token on_lookup
  served c s t key p token h lt entry hit =
      ap
        (λ b.
          if b
          then (s, err caller_abandoned)
          else on_lookup equal_fold settings c s t key p (cache_get t (find key s.held)))
        entry
      ∙ ap (λ o. on_lookup equal_fold settings c s t key p (cache_get t o)) h
      ∙ ap (λ o. on_lookup equal_fold settings c s t key p o) (fresh_hit t token lt)
      ∙ ap (λ b. (s, if b then err caller_abandoned else ok token)) hit
