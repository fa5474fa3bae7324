-- ===== src/Common/Assoc.antt =====
-- Go's maps keyed by strings, as association lists. A stored entry stays where it stands; a new one
-- goes to the end. The program ranges over a map only to ask whether some entry passes a test or to
-- treat every entry alike, so the order is not seen.
use Prim.Native.Nat.{ℕ, ◌+◌, ◌≤◌}
use Prim.Native.String.{String}
use mathlib.Core.Path.{◌≡◌, refl, subst}
use mathlib.Core.Logic.{◌≢◌, ◌⊎◌, inl, inr, ite}
use mathlib.Core.Bool.{Bool, true, false, ◌||◌}
use mathlib.Core.List.{List, [], ◌∷◌}
use mathlib.Core.Option.{Option, none, some}
use native.Mathlib.Omega.{arith}
use solace_broker_mcp.Common.Tests.{key_eq}
use solace_broker_mcp.Common.Lists.{length}

abbrev pub Assoc {ℓ} : Type ℓ → Type ℓ
Assoc V = List (String × V)

module _ {V : Type 0} where
  unfoldable pub find : String → Assoc V → Option V
  find k [] = none
  find k ((j, v) ∷ m) = ite (key_eq j k) (some v) (find k m)

  unfoldable pub put : String → V → Assoc V → Assoc V
  put k v [] = (k, v) ∷ []
  put k v ((j, w) ∷ m) = ite (key_eq j k) ((k, v) ∷ m) ((j, w) ∷ put k v m)

  unfoldable pub del : String → Assoc V → Assoc V
  del k [] = []
  del k ((j, w) ∷ m) = ite (key_eq j k) m ((j, w) ∷ del k m)

  -- A write through a pointer that is stored under the key. A missing key, where Go would follow a
  -- nil pointer, changes nothing.
  unfoldable pub modify : (V → V) → String → Assoc V → Assoc V
  modify f k m = elim (find k m) [ none ↦ m | some v ↦ put k (f v) m ]

  -- Whether some entry passes a test, the loop with an early `return true`.
  unfoldable pub any : (V → Bool) → Assoc V → Bool
  any p [] = false
  any p ((j, w) ∷ m) = p w || any p m

  -- The same, with the entry of one key passed over.
  unfoldable pub any_other : (V → Bool) → String → Assoc V → Bool
  any_other p k [] = false
  any_other p k ((j, w) ∷ m) = ite (key_eq j k) (any_other p k m) (p w || any_other p k m)

  unfoldable pub sum_of : (V → ℕ) → Assoc V → ℕ
  sum_of f [] = 0
  sum_of f ((j, w) ∷ m) = f w + sum_of f m

  -- 1 for a stored key, 0 for another.
  abbrev pub stored : Option V → ℕ
  stored none = 0
  stored (some v) = 1

  unfoldable pub present : String → Assoc V → ℕ
  present k m = stored (find k m)

  abbrev pub Unique : Assoc V → Type 0
  Unique [] = Unit
  Unique ((k, v) ∷ m) = (find k m ≡ none) × Unique m

  abbrev pub All {κ} : (String → V → Type κ) → Assoc V → Type κ
  All P m = (k : String) (v : V) → find k m ≡ some v → P k v

  pub find-put :
      (k j : String) (v : V) (m : Assoc V)
      → find j (put k v m) ≡ ite (key_eq k j) (some v) (find j m)
  unfolding find put
  find-put k j v [] = refl
  find-put k j v ((i, w) ∷ m) = ground (arith, find-put k j v m)

  pub put-Unique : (k : String) (v : V) (m : Assoc V) → Unique m → Unique (put k v m)
  unfolding put find
  put-Unique k v [] u = (refl, tt)
  put-Unique k v ((i, w) ∷ m) u = ground (arith, put-Unique k v m u.1, find-put k i v m)

  pub find-del :
      (k j : String) (m : Assoc V) → Unique m → find j (del k m) ≡ ite (key_eq k j) none (find j m)
  unfolding find del
  find-del k j [] u = ground arith
  find-del k j ((i, w) ∷ m) u = ground (arith, find-del k j m u.1)

  pub del-Unique : (k : String) (m : Assoc V) → Unique m → Unique (del k m)
  unfolding del
  del-Unique k [] u = tt
  del-Unique k ((i, w) ∷ m) u = ground (arith, del-Unique k m u.1, find-del k i m u.1)

  pub sum-put_new :
      (f : V → ℕ) (k : String) (v : V) (m : Assoc V)
      → find k m ≡ none
      → sum_of f (put k v m) ≡ sum_of f m + f v
  unfolding sum_of put find
  sum-put_new f k v [] h = omega arith
  sum-put_new f k v ((i, w) ∷ m) h = ground (arith, sum-put_new f k v m)

  pub sum-put_old :
      (f : V → ℕ) (k : String) (w v : V) (m : Assoc V)
      → find k m ≡ some w
      → sum_of f (put k v m) + f w ≡ sum_of f m + f v
  unfolding sum_of put find
  sum-put_old f k w v [] h = cc
  sum-put_old f k w v ((i, x) ∷ m) h = ground (arith, sum-put_old f k w v m)

  pub sum-del :
      (f : V → ℕ) (k : String) (w : V) (m : Assoc V)
      → find k m ≡ some w
      → sum_of f (del k m) + f w ≡ sum_of f m
  unfolding sum_of del find
  sum-del f k w [] h = cc
  sum-del f k w ((i, x) ∷ m) h = ground (arith, sum-del f k w m)

  pub length-put_old :
      (k : String) (w v : V) (m : Assoc V) → find k m ≡ some w → length (put k v m) ≡ length m
  unfolding put find
  length-put_old k w v [] h = cc
  length-put_old k w v ((i, x) ∷ m) h = ground (arith, length-put_old k w v m)

  pub le-sum_of :
      (f : V → ℕ) (k : String) (v : V) (m : Assoc V) → find k m ≡ some v → f v ≤ sum_of f m
  unfolding sum_of find
  le-sum_of f k v [] h = cc
  le-sum_of f k v ((i, x) ∷ m) h = ground (arith, le-sum_of f k v m)

  pub any-of_find :
      (p : V → Bool) (k : String) (v : V) (m : Assoc V)
      → find k m ≡ some v
      → p v ≡ true
      → any p m ≡ true
  unfolding any find
  any-of_find p k v [] h t = cc
  any-of_find p k v ((i, x) ∷ m) h t = ground (arith, any-of_find p k v m)

  pub any_other-of_find :
      (p : V → Bool) (k j : String) (v : V) (m : Assoc V)
      → k ≢ j
      → find k m ≡ some v
      → p v ≡ true
      → any_other p j m ≡ true
  unfolding any_other find
  any_other-of_find p k j v [] ne h t = cc
  any_other-of_find p k j v ((i, x) ∷ m) ne h t = ground (arith, any_other-of_find p k j v m ne)

  -- A find after a put or a delete is one of the new entry, or one that the map answered before.
  pub find-put_cases :
      (k j : String) (v w : V) (m : Assoc V)
      → find j (put k v m) ≡ some w
      → ((k ≡ j) × (v ≡ w)) ⊎ ((k ≢ j) × (find j m ≡ some w))
  find-put_cases k j v w m f = elim (key_eq k j) [
    | yes e ↦ inl (e, ground (arith, find-put k j v m))
    | no ne ↦ inr (ne, ground (arith, find-put k j v m))
  ]

  pub find-del_cases :
      (k j : String) (w : V) (m : Assoc V)
      → Unique m
      → find j (del k m) ≡ some w
      → (k ≢ j) × (find j m ≡ some w)
  find-del_cases k j w m u f = elim (key_eq k j) [
    | yes e ↦ ground (arith, find-del k j m u)
    | no ne ↦ (ne, ground (arith, find-del k j m u))
  ]

  module _ {κ} (P : String → V → Type κ) where
    -- The entry that is overwritten need not have the property.
    pub put-All_ne :
        (k : String) (v : V) (m : Assoc V)
        → ((j : String) (w : V) → k ≢ j → find j m ≡ some w → P j w)
        → P k v
        → All P (put k v m)
    put-All_ne k v m h p j w f = elim (find-put_cases k j v w m f) [
      | inl (e, e') ↦ subst (P j) e' (subst (λ i. P i v) e p)
      | inr (ne, f') ↦ h j w ne f'
    ]

    pub put-All : (k : String) (v : V) (m : Assoc V) → All P m → P k v → All P (put k v m)
    put-All k v m h p j w f = elim (find-put_cases k j v w m f) [
      | inl (e, e') ↦ subst (P j) e' (subst (λ i. P i v) e p)
      | inr (_, f') ↦ h j w f'
    ]

    pub del-All : (k : String) (m : Assoc V) → Unique m → All P m → All P (del k m)
    del-All k m u h j w f = h j w (find-del_cases k j w m u f).1

    pub nil-All : All P []
    unfolding find
    nil-All j w f = cc
