-- ===== src/TokenExchange/Lifetimes.antt =====
-- How long a token of internal/tokenexchange/response.go is served by the cache of
-- internal/oauth/cache/otter.go.
use solace_broker_mcp.Common.{
  ℕ, zero, suc, ◌+◌, ◌-◌, ◌*◌, ◌≤◌, ◌<◌, ◌≡◌, ◌≢◌, refl, String, Bool, true, false, not, ◌&&◌, none,
  some, ltb, arith, ◌⊎◌, inl, inr, if_cases, ◌==◌,
}
use solace_broker_mcp.Common.Integer.{ℤ, pos, negsuc}
use solace_broker_mcp.Common.Texts.{is_text}
use solace_broker_mcp.Common.Result.{ok, OnOk, OnOk-bind, OnOk-at}
use solace_broker_mcp.TokenExchange.Response.{
  Token, Settings, parse_success_body, lifetime_of, ParsedSuccess, SuccessResponse, second,
  default_token_expiry_skew, max_expires_in_seconds,
}
use solace_broker_mcp.TokenExchange.Cache.{cache_get}

-- The lifetime that is selected: what the provider says, or the fallback where it says nothing.
abbrev pub Selected : Settings → ℤ → ℕ × Bool → Type 0
Selected e expires_in l =
    ((n : ℕ) × (expires_in ≡ pos (suc n))
      × (suc n ≤ max_expires_in_seconds)
      × (l.0 ≡ suc n * second)
      × (l.1 ≡ false))
    ⊎ ((expires_in ≡ pos zero)
        × (e.token_expiry_fallback ≢ 0)
        × (l.0 ≡ e.token_expiry_fallback)
        × (l.1 ≡ true))

lifetime_of-Selected :
    (e : Settings) (expires_in : ℤ) → OnOk (Selected e expires_in) (lifetime_of e expires_in)
unfolding lifetime_of
lifetime_of-Selected e (negsuc n) = tt
lifetime_of-Selected e (pos zero) =
    if_cases (OnOk (Selected e (pos zero))) (e.token_expiry_fallback == 0) _ _ (λ h. tt)
      (λ h. inr (refl, (λ z. ground arith), refl, refl))
lifetime_of-Selected e (pos (suc n)) =
    if_cases (OnOk (Selected e (pos (suc n)))) (ltb max_expires_in_seconds (suc n)) _ _ (λ h. tt)
      (λ h. inl (n, refl, ground arith, refl, refl))

module _ (equal_fold : String → String → Bool) (e : Settings) (sr : SuccessResponse) (now : ℕ) where
  -- A token as it is issued: with a value, of type Bearer, and with an expiry that its selected lifetime
  -- gives less half a minute.
  abbrev pub Issued : ParsedSuccess → Type 0
  Issued p =
      (is_text sr.access_token "" ≡ false)
      × (equal_fold sr.token_type "Bearer" ≡ true)
      × (p.token.value ≡ sr.access_token)
      × ((l : ℕ × Bool) × Selected e sr.expires_in l
          × (p.used_fallback ≡ l.1)
          × (p.token.expires_at ≡ now + l.0 - default_token_expiry_skew))

  parse_success_body-Issued : OnOk Issued (parse_success_body equal_fold e (some sr) now)
  unfolding parse_success_body
  parse_success_body-Issued =
      if_cases (OnOk Issued) (is_text sr.access_token "") _ _ (λ a. tt)
        (λ a.
          if_cases (OnOk Issued) (not (equal_fold sr.token_type "Bearer")) _ _ (λ b. tt)
            (λ b.
              if_cases (OnOk Issued)
                (e.grant_is_token_exchange
                  && not (
                      is_text sr.issued_token_type "urn:ietf:params:oauth:token-type:access_token"))
                _ _ (λ c. tt)
                (λ c. OnOk-bind Issued (lifetime_of e sr.expires_in) _ (λ l d. (
                  a,
                  ground arith,
                  refl,
                  (
                    l,
                    OnOk-at (Selected e sr.expires_in) _ l (lifetime_of-Selected e sr.expires_in) d,
                    refl,
                    refl,
                  ),
                )))))

  hit_fresh : (t : ℕ) (token : Token) → cache_get t (some token) ≢ none → t < token.expires_at
  unfolding cache_get
  hit_fresh t token h = ground arith

  -- A token that was issued for a lifetime, of the provider's or else the fallback, is served by the
  -- cache only while more than half a minute of that lifetime is left.
  pub served-early :
      (p : ParsedSuccess) (t : ℕ)
      → parse_success_body equal_fold e (some sr) now ≡ ok p
      → cache_get t (some p.token) ≢ none
      → (l : ℕ × Bool) × Selected e sr.expires_in l × (t + default_token_expiry_skew < now + l.0)
  served-early p t h hit =
      let (_, _, _, (l, chosen, _, at)) = OnOk-at Issued _ p parse_success_body-Issued h in
      (l, chosen, omega (arith, at, hit_fresh t p.token hit))
