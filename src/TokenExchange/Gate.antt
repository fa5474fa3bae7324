-- ===== src/TokenExchange/Gate.antt =====
-- The Retry-After gate is only ever extended, and only by what an exhausted 429 asked for.
use solace_broker_mcp.Common.{
  ℕ, ◌+◌, ◌≡◌, ◌≤◌, ◌⊎◌, ◌≢◌, refl, List, [], ◌∷◌, Bool, true, false, none, some, ltb,
  if◌then◌else◌, arith, inl, inr, if_cases, not, Option-cases,
}
use solace_broker_mcp.TokenExchange.{
  Exchanger, ExchangeError, RetryAfter, exchange, FailureClass, class_none, network, upstream5xx,
  rate_limited, body_read, config, gate_check, clamp_retry_after, raise_round, Round, raise_loop,
  raise_gate, raise_on_rate_limit, raise_gate_on_exhausted_rate_limit,
}

-- Other calls only extend the gate between a load and the swap.
unfoldable pub Extended : List Round → Type 0
Extended [] = Unit
Extended (r ∷ rounds) = (r.loaded ≤ r.met) × Extended rounds

-- The later of two instants.
abbrev pub later : ℕ → ℕ → ℕ
later a b = if ltb a b then b else a

round_later :
    (until : ℕ) (r : Round) (e e' : Exchanger) (raised : Bool)
    → r.loaded ≤ r.met
    → raise_round until r.loaded (record e { gated_until = r.met }) ≡ some (e', raised)
    → (e'.gated_until ≡ later r.met until) × (raised ≡ ltb r.met until)
unfolding raise_round
round_later until r e e' raised le h = ground arith

-- Whether a round ends the loop: the gate that was loaded is late enough, or the swap meets it.
abbrev pub Ending : ℕ → Round → Type 0
Ending until r = (until ≤ r.loaded) ⊎ (r.met ≡ r.loaded)

-- The round is the first of the list that ends the loop.
unfoldable pub FirstEnding : ℕ → List Round → Round → Type 0
FirstEnding until [] r = ⊥
FirstEnding until (x ∷ rounds) r =
    ((x ≡ r) × Ending until x) ⊎ ((Ending until x → ⊥) × FirstEnding until rounds r)

round_lost :
    (until : ℕ) (r : Round) (e : Exchanger)
    → raise_round until r.loaded (record e { gated_until = r.met }) ≡ none
    → Ending until r
    → ⊥
unfolding raise_round
round_lost until r e h (inl late) = absurd (ground arith)
round_lost until r e h (inr same) = absurd (ground arith)

round_ends :
    (until : ℕ) (r : Round) (e : Exchanger) (answer : Exchanger × Bool)
    → raise_round until r.loaded (record e { gated_until = r.met }) ≡ some answer
    → Ending until r
unfolding raise_round
round_ends until r e answer h = ground arith

-- Whatever other calls do between its loads and its swaps, as long as they only extend the gate,
-- a call of `raiseGate` that returns does so in the first of its rounds that loads a gate that is late
-- enough or whose swap meets what was loaded; it leaves the later of its own instant and the gate that
-- it met in that round, and says truly whether it raised it.
pub raise_loop-later :
    (until : ℕ) (rounds : List Round) (e e' : Exchanger) (raised : Bool)
    → Extended rounds
    → raise_loop until rounds e ≡ some (e', raised)
    → (r : Round) × FirstEnding until rounds r
      × (e'.gated_until ≡ later r.met until)
      × (raised ≡ ltb r.met until)
unfolding raise_loop Extended FirstEnding
raise_loop-later until [] e e' raised m h = absurd (cc h)
raise_loop-later until (r ∷ rounds) e e' raised (le, m) h =
    elim (Option-cases (raise_round until r.loaded (record e { gated_until = r.met }))) [
      | inl none_yet ↦
          let (r', first, gate, told) =
            raise_loop-later until rounds e e' raised m (cc (none_yet, h)) in
          (r', inr (round_lost until r e none_yet, first), gate, told)
      | inr (answer, done) ↦
          let (a, b) = round_later until r e e' raised le (cc (done, h)) in
          (r, inl (refl, round_ends until r e answer done), a, b)
    ]

-- The loop of `raiseGate` ends in a round in which the swap meets the value that was loaded.
pub undisturbed-ends :
    (until : ℕ) (r : Round) (rounds : List Round) (e : Exchanger)
    → r.met ≡ r.loaded
    → (answer : Exchanger × Bool) × (raise_loop until (r ∷ rounds) e ≡ some answer)
unfolding raise_loop raise_round
undisturbed-ends until r rounds e h =
    elim (Option-cases (raise_round until r.loaded (record e { gated_until = r.met }))) [
      | inl none_yet ↦ absurd (ground arith)
      | inr (answer, done) ↦ (answer, cc done)
    ]

raise_gate-later :
    (e : Exchanger) (now delay : ℕ)
    → 1 ≤ delay
    → (raise_gate e now delay).0.gated_until ≡ later e.gated_until (now + delay)
unfolding raise_gate raise_round
raise_gate-later e now delay h = ground arith

rate_limit-raise_gate :
    (e : Exchanger) (now : ℕ) (err : ExchangeError) (r : RetryAfter)
    → err.retries_exhausted ≡ true
    → err.failure_class ≡ rate_limited
    → err.retry_after ≡ some r
    → r.ok ≡ true
    → raise_gate_on_exhausted_rate_limit e now (exchange err)
      ≡ (raise_gate e now (clamp_retry_after e r.delay).0).0
unfolding raise_gate_on_exhausted_rate_limit raise_on_rate_limit
rate_limit-raise_gate e now err r x c a o = rw (x, c, a, o) refl

clamp-bounds :
    (e : Exchanger) (delay : ℕ)
    → 1 ≤ delay
    → (1 ≤ (clamp_retry_after e delay).0) × ((clamp_retry_after e delay).0 ≤ delay)
unfolding clamp_retry_after
clamp-bounds e delay h = ground arith

-- An exhausted 429 with a readable, positive Retry-After sets the gate to the later of its old
-- instant and now plus the delay, clamped; the clamped delay is positive and no longer than
-- asked, and the gate is closed at every instant before its end.
pub rate_limit-closes :
    (e : Exchanger) (now t : ℕ) (err : ExchangeError) (r : RetryAfter)
    → err.retries_exhausted ≡ true
    → err.failure_class ≡ rate_limited
    → err.retry_after ≡ some r
    → r.ok ≡ true
    → 1 ≤ r.delay
    → let e' = raise_gate_on_exhausted_rate_limit e now (exchange err) in
      let granted = (clamp_retry_after e r.delay).0 in
      (e'.gated_until ≡ later e.gated_until (now + granted))
      × (1 ≤ granted)
      × (granted ≤ r.delay)
      × ((now + granted ≤ t) ⊎ (gate_check e' t ≡ true))
unfolding gate_check
rate_limit-closes e now t err r x c a o d =
    let (one, most) = clamp-bounds e r.delay d in
    let raised = rate_limit-raise_gate e now err r x c a o in
    let set = raise_gate-later e now (clamp_retry_after e r.delay).0 one in
    let same : (raise_gate_on_exhausted_rate_limit e now (exchange err)).gated_until
        ≡ later e.gated_until (now + (clamp_retry_after e r.delay).0) =
      cc (raised, set) in
    (same, one, most, ground (arith, same))

unread :
    (e : Exchanger) (now : ℕ) (err : ExchangeError) (c : FailureClass)
    → err.failure_class ≡ c
    → (err.failure_class ≢ rate_limited) ⊎ (err.retry_after ≡ none)
    → raise_on_rate_limit e now err ≡ e
unfolding raise_on_rate_limit
unread e now err class_none h k = rw h refl
unread e now err network h k = rw h refl
unread e now err upstream5xx h k = rw h refl
unread e now err body_read h k = rw h refl
unread e now err config h k = rw h refl
unread e now err rate_limited h (inl k) = absurd (k h)
unread e now err rate_limited h (inr k) = rw (h, k) refl

-- An error of the exchange whose retries are not exhausted, or that is no 429, or that has no
-- Retry-After leaves the gate as it is.
pub others-keep :
    (e : Exchanger) (now : ℕ) (err : ExchangeError)
    → (err.retries_exhausted ≡ false)
      ⊎ (err.failure_class ≢ rate_limited)
      ⊎ (err.retry_after ≡ none)
    → raise_gate_on_exhausted_rate_limit e now (exchange err) ≡ e
unfolding raise_gate_on_exhausted_rate_limit raise_on_rate_limit
others-keep e now err (inl h) = rw h refl
others-keep e now err (inr h) =
    if_cases (λ z. z ≡ e) (not err.retries_exhausted) _ _ (λ _. refl)
      (λ _. unread e now err err.failure_class refl h)
