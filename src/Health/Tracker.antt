-- ===== src/Health/Tracker.antt =====
-- What the tracker holds of the brokers after any results.
use mathlib.Core.List.{Memᴰ}
use mathlib.Core.List.Memᴰ
use solace_broker_mcp.Common.{
  ℕ, ◌≤◌, ◌<◌, ◌≢◌, ◌⊎◌, inl, inr, ◌↔◌, if_cases, ◌==◌, leb, ltb, ◌&&◌, ◌||◌, sym, ap, subst, ◌∙◌,
  ◌≡◌, refl, String, List, [], ◌∷◌, Option, none, some, key_eq, ite, arith,
}
use solace_broker_mcp.Common.Assoc.{Assoc, find, find-put}
use solace_broker_mcp.Health.{
  BrokerState, reachable, unreachable, credential_invalid, broker_error, classify, BrokerEntry,
  seen_before, add_reason, record_broker_result,
}

-- Results of requests, the latest first.
unfoldable pub record_all : List (String × ℕ) → Assoc BrokerEntry
record_all [] = []
record_all ((broker, code) ∷ results) = record_broker_result (record_all results) broker code

-- The status of the broker's last result.
unfoldable pub last_code : String → List (String × ℕ) → Option ℕ
last_code broker [] = none
last_code broker ((b, code) ∷ results) =
    ite (key_eq b broker) (some code) (last_code broker results)

-- The trouble that a status tells of, with 0 for no response.
unfoldable pub Trouble : ℕ → BrokerState → Type 0
Trouble code unreachable = code ≡ 0
Trouble code credential_invalid = (code ≡ 401) ⊎ (code ≡ 403)
Trouble code (broker_error n) = (code ≡ n) × ((code ≡ 429) ⊎ ((500 ≤ code) × (code < 600)))
Trouble code reachable = ⊥

-- The state that a status stands for: the trouble it tells of, or that the broker was reached.
unfoldable pub StandsFor : ℕ → BrokerState → Type 0
StandsFor code reachable = (s : BrokerState) → Trouble code s → ⊥
StandsFor code s = Trouble code s

-- One of the broker's results tells of the trouble.
abbrev pub Reported : String → BrokerState → List (String × ℕ) → Type 0
Reported broker s results = (code : ℕ) × Memᴰ (broker, code) results × Trouble code s

abbrev pub IsCurrent : Option BrokerEntry → Option ℕ → Type 0
IsCurrent (some e) (some code) = StandsFor code e.current
IsCurrent none none = Unit
IsCurrent _ _ = ⊥

no-Trouble :
    (code : ℕ)
    → code ≢ 0
    → code ≢ 401
    → code ≢ 403
    → code ≢ 429
    → (code < 500) ⊎ (600 ≤ code)
    → (s : BrokerState) → Trouble code s
    → ⊥
unfolding Trouble
no-Trouble code a b c d r reachable t = t
no-Trouble code a b c d r unreachable t = a t
no-Trouble code a b c d r credential_invalid (inl t) = b t
no-Trouble code a b c d r credential_invalid (inr t) = c t
no-Trouble code a b c d r (broker_error n) (_, inl t) = d t
no-Trouble code a b c d (inl r) (broker_error n) (_, inr t) = omega (arith, t.0, t.1, r)
no-Trouble code a b c d (inr r) (broker_error n) (_, inr t) = omega (arith, t.0, t.1, r)

classify-StandsFor : (code : ℕ) → StandsFor code (classify code)
unfolding classify StandsFor Trouble
classify-StandsFor code =
    if_cases (StandsFor code) (code == 0) _ _ (λ e. ground arith)
      (λ e0.
        if_cases (StandsFor code) (code == 401 || code == 403) _ _ (λ e. ground arith)
          (λ e1.
            if_cases (StandsFor code) (leb 200 code && ltb code 300) _ _
              (λ e.
                no-Trouble code (ground arith) (ground arith) (ground arith) (ground arith)
                  (ground arith))
              (λ e2.
                if_cases (StandsFor code) (code == 429 || (leb 500 code && ltb code 600)) _ _
                  (λ e. (refl, ground arith))
                  (λ e3.
                    no-Trouble code (ground arith) (ground arith) (ground arith) (ground arith)
                      (ground arith)))))

Trouble-classify : (code : ℕ) (s : BrokerState) → Trouble code s → s ≡ classify code
unfolding classify Trouble
Trouble-classify code unreachable t = ground arith
Trouble-classify code credential_invalid t = ground arith
Trouble-classify code (broker_error n) (e, inl t) = ap broker_error (sym e) ∙ (ground arith)
Trouble-classify code (broker_error n) (e, inr t) =
    ap broker_error (sym e) ∙ (ground (arith, t.0, t.1))
Trouble-classify code reachable t = absurd t

added :
    (code : ℕ) (c s : BrokerState) (seen : List BrokerState)
    → Trouble code c
    → (Trouble code s → s ≡ c)
    → Memᴰ s (c ∷ seen) ↔ (Trouble code s ⊎ Memᴰ s seen)
added code c s seen t only = (
  (λ m. elim (Memᴰ.cases_cons m) [ inl e ↦ inl (subst (Trouble code) (sym e) t) | inr a ↦ inr a ]),
  (λ m. elim m [ inl t' ↦ Memᴰ.head (only t') | inr a ↦ Memᴰ.tail a ]),
)

-- What a result adds to the reasons, by the state that it stands for.
add_reason-Mem :
    (code : ℕ) (c s : BrokerState) (seen : List BrokerState)
    → StandsFor code c
    → (Trouble code s → s ≡ c)
    → Memᴰ s (add_reason c seen) ↔ (Trouble code s ⊎ Memᴰ s seen)
unfolding StandsFor add_reason
add_reason-Mem code reachable s seen fine only =
    (inr, λ m. elim m [ inl t ↦ absurd (fine s t) | inr a ↦ a ])
add_reason-Mem code unreachable s seen t only = added code unreachable s seen t only
add_reason-Mem code credential_invalid s seen t only = added code credential_invalid s seen t only
add_reason-Mem code (broker_error n) s seen t only = added code (broker_error n) s seen t only

-- A result of the broker beside those before it.
with_result :
    (broker : String) (code : ℕ) (s : BrokerState) (results : List (String × ℕ))
    → Reported broker s ((broker, code) ∷ results) ↔ (Trouble code s ⊎ Reported broker s results)
with_result broker code s results = (
  (λ (c, m, t). elim (Memᴰ.cases_cons m) [
    | inl e ↦ inl (subst (λ x. Trouble x s) (ap (λ x. x.1) e) t)
    | inr a ↦ inr (c, a, t)
  ]),
  (λ r. elim r [ inl t ↦ (code, Memᴰ.head refl, t) | inr (c, a, t) ↦ (c, Memᴰ.tail a, t) ]),
)

other_result :
    (broker b : String) (code : ℕ) (s : BrokerState) (results : List (String × ℕ))
    → b ≢ broker
    → Reported broker s ((b, code) ∷ results) ↔ Reported broker s results
other_result broker b code s results other = (
  (λ (c, m, t). elim (Memᴰ.cases_cons m) [
    | inl e ↦ absurd (other (sym (ap (λ x. x.0) e)))
    | inr a ↦ (c, a, t)
  ]),
  (λ (c, a, t). (c, Memᴰ.tail a, t)),
)

abbrev entry_for : Assoc BrokerEntry → String → ℕ → BrokerEntry
entry_for entries broker code = record {
  current = classify code;
  seen_reasons = add_reason (classify code) (seen_before (find broker entries));
}

-- The reasons after a result of the broker.
entry-reasons :
    (broker : String) (code : ℕ) (s : BrokerState) (results : List (String × ℕ))
    (entries : Assoc BrokerEntry)
    → Memᴰ s (seen_before (find broker entries)) ↔ Reported broker s results
    → Memᴰ s (entry_for entries broker code).seen_reasons
      ↔ Reported broker s ((broker, code) ∷ results)
entry-reasons broker code s results entries h =
    let add =
      add_reason-Mem code (classify code) s (seen_before (find broker entries))
        (classify-StandsFor code) (Trouble-classify code s) in
    let more = with_result broker code s results in
    (
      (λ m. more.1 (elim (add.0 m) [ inl t ↦ inl t | inr a ↦ inr (h.0 a) ])),
      (λ r. add.1 (elim (more.0 r) [ inl t ↦ inl t | inr a ↦ inr (h.1 a) ])),
    )

abbrev History : String → List (String × ℕ) → Option BrokerEntry → Option ℕ → Type 0
History broker results found code =
    IsCurrent found code
    × ((s : BrokerState) → Memᴰ s (seen_before found) ↔ Reported broker s results)

-- After any results, a broker is in the state that the status of its own last result stands for, and is
-- unknown before its first; and its reasons are the troubles that its results told of, each of them: none
-- is forgotten after a success.
pub record_all-history :
    (broker : String) (results : List (String × ℕ))
    → IsCurrent (find broker (record_all results)) (last_code broker results)
      × ((s : BrokerState)
          → Memᴰ s (seen_before (find broker (record_all results))) ↔ Reported broker s results)
unfolding record_all last_code record_broker_result seen_before find
record_all-history broker [] =
    (tt, λ s. ((λ m. absurd (Memᴰ.not-nil m)), (λ (c, m, t). absurd (Memᴰ.not-nil m))))
record_all-history broker ((b, code) ∷ results) =
    let entries = record_all results in
    let ih = record_all-history broker results in
    subst
      (λ found.
        History broker ((b, code) ∷ results) found
          (ite (key_eq b broker) (some code) (last_code broker results)))
      (sym (find-put b broker (entry_for entries b code) entries))
      (elim (key_eq b broker)
        as (λ d.
          History broker ((b, code) ∷ results)
            (ite d (some (entry_for entries b code)) (find broker entries))
            (ite d (some code) (last_code broker results))) [
              | yes p ↦
                  subst
                    (λ x.
                      History broker ((x, code) ∷ results) (some (entry_for entries x code))
                        (some code))
                    (sym p)
                    (
                      classify-StandsFor code,
                      λ s. entry-reasons broker code s results entries (ih.1 s),
                    )
              | no n ↦ (
                ih.0,
                λ s.
                    let o = other_result broker b code s results n in
                    ((λ m. o.1 ((ih.1 s).0 m)), (λ r. (ih.1 s).1 (o.0 r))),
              )
            ])
