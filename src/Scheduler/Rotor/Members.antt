-- ===== src/Scheduler/Rotor/Members.antt =====
-- Which keys a rotor holds, and what `insert`, `advance_past` and `remove` do to them.
use native.Mathlib.Nat.{mod-lt}
use solace_broker_mcp.Common.{
  ℕ, zero, suc, ◌+◌, ◌≤◌, ◌<◌, ◌≡◌, refl, sym, ap, String, List, [], ◌∷◌, ◌++◌, none, some, ite,
  ◌⊎◌, inl, inr, arith, key_eq, length, take, drop, take-append-drop, ltb, if◌then◌else◌,
  Option-cases,
}
use solace_broker_mcp.Scheduler.Rotor.{
  Rotor, len, advance_past, insert, index_of, remove_at, remove,
}

pub add_one : (n : ℕ) → n + 1 ≡ suc n
add_one n = omega arith

unfoldable pub occ : String → List String → ℕ
occ k [] = 0
occ k (x ∷ xs) = ite (key_eq x k) 1 0 + occ k xs

unfoldable pub without : String → List String → List String
without k [] = []
without k (x ∷ xs) = ite (key_eq x k) (without k xs) (x ∷ without k xs)

pub occ-append : (k : String) (xs ys : List String) → occ k (xs ++ ys) ≡ occ k xs + occ k ys
unfolding occ
occ-append k [] ys = omega arith
occ-append k (x ∷ xs) ys = omega (arith, occ-append k xs ys)

pub occ-without :
    (k j : String) (xs : List String) → occ j (without k xs) ≡ ite (key_eq k j) 0 (occ j xs)
unfolding occ without
occ-without k j [] = ground arith
occ-without k j (x ∷ xs) = ground (arith, occ-without k j xs)

pub without_absent : (k : String) (xs : List String) → occ k xs ≡ 0 → without k xs ≡ xs
unfolding occ without
without_absent k [] h = refl
without_absent k (x ∷ xs) h = ground (arith, without_absent k xs)

pub index_of-none : (k : String) (xs : List String) → index_of k xs ≡ none → occ k xs ≡ 0
unfolding occ index_of
index_of-none k [] h = refl
index_of-none k (x ∷ xs) h = ground (arith, index_of-none k xs)

pub length-without : (k : String) (xs : List String) → length (without k xs) + occ k xs ≡ length xs
unfolding occ without
length-without k [] = refl
length-without k (x ∷ xs) = ground (arith, length-without k xs)

-- The two slices that `remove` joins leave out the one entry that equals the key.
pub cut-without :
    (k : String) (i : ℕ) (xs : List String)
    → index_of k xs ≡ some i
    → occ k xs ≤ 1
    → take i xs ++ drop (suc i) xs ≡ without k xs
unfolding occ without index_of
cut-without k i [] h u = cc
cut-without k zero (x ∷ xs) h u = ground (arith, without_absent k xs)
cut-without k (suc i) (x ∷ xs) h u = ground (arith, cut-without k i xs)

-- How many copies of the key stand in front of a cursor.
pub occ-take_index :
    (k : String) (i c : ℕ) (xs : List String)
    → index_of k xs ≡ some i
    → occ k xs ≤ 1
    → occ k (take c xs) ≡ (if ltb i c then 1 else 0)
unfolding occ index_of
occ-take_index k i zero xs h u = ground arith
occ-take_index k i (suc c) [] h u = cc
occ-take_index k zero (suc c) (x ∷ xs) h u =
    ground (arith, occ-append k (take c xs) (drop c xs), take-append-drop c xs)
occ-take_index k (suc i) (suc c) (x ∷ xs) h u = ground (arith, occ-take_index k i c xs)

take_nil : (n : ℕ) → take {A = String} n [] ≡ []
take_nil zero = refl
take_nil (suc n) = refl

drop_nil : (n : ℕ) → drop {A = String} n [] ≡ []
drop_nil zero = refl
drop_nil (suc n) = refl

occ-take-le : (k : String) (n : ℕ) (xs : List String) → occ k (take n xs) ≤ n
unfolding occ
occ-take-le k zero xs = omega arith
occ-take-le k (suc n) [] = omega arith
occ-take-le k (suc n) (x ∷ xs) = ground (arith, occ-take-le k n xs)

-- Without the key, a cursor stands as many places further to the front as copies stood before it.
pub take-without :
    (k : String) (n m : ℕ) (xs : List String)
    → m + occ k (take n xs) ≡ n
    → without k (take n xs) ≡ take m (without k xs)
unfolding occ without
take-without k zero zero xs h = refl
take-without k zero (suc m) xs h = absurd (omega arith)
take-without k (suc n) m [] h = sym (take_nil m)
take-without k (suc n) zero (x ∷ xs) h =
    ground (arith, take-without k n zero xs, occ-take-le k n xs)
take-without k (suc n) (suc m) (x ∷ xs) h =
    ground (arith, take-without k n (suc m) xs, take-without k n m xs)

pub drop-without :
    (k : String) (n m : ℕ) (xs : List String)
    → m + occ k (take n xs) ≡ n
    → without k (drop n xs) ≡ drop m (without k xs)
unfolding occ without
drop-without k zero zero xs h = refl
drop-without k zero (suc m) xs h = absurd (omega arith)
drop-without k (suc n) m [] h = sym (drop_nil m)
drop-without k (suc n) zero (x ∷ xs) h =
    ground (arith, drop-without k n zero xs, occ-take-le k n xs)
drop-without k (suc n) (suc m) (x ∷ xs) h =
    ground (arith, drop-without k n (suc m) xs, drop-without k n m xs)

pub without-append :
    (k : String) (xs ys : List String) → without k (xs ++ ys) ≡ without k xs ++ without k ys
unfolding without
without-append k [] ys = refl
without-append k (x ∷ xs) ys = ground (arith, without-append k xs ys)

-- The key list after `remove`.
pub keys-remove : (r : Rotor) (k : String) → occ k r.keys ≤ 1 → (remove r k).keys ≡ without k r.keys
unfolding remove remove_at
keys-remove r k u = elim (Option-cases (index_of k r.keys)) [
  | inl e ↦ rw (e, remove) (sym (without_absent k r.keys (index_of-none k r.keys e)))
  | inr (i, e) ↦ rw (e, remove, add_one i) (cut-without k i r.keys e u)
]

pub occ-remove :
    (r : Rotor) (k j : String)
    → occ k r.keys ≤ 1
    → occ j (remove r k).keys ≡ ite (key_eq k j) 0 (occ j r.keys)
occ-remove r k j u = rw (keys-remove r k u) (occ-without k j r.keys)

pub occ-insert :
    (r : Rotor) (k j : String) → occ j (insert r k).keys ≡ ite (key_eq k j) 1 0 + occ j r.keys
unfolding insert occ
occ-insert r k j =
    let c : ℕ = if ltb (len r) r.cursor then len r else r.cursor in
    omega (
      arith,
      occ-append j (take c r.keys) (k ∷ drop c r.keys),
      occ-append j (take c r.keys) (drop c r.keys),
      ap (occ j) (take-append-drop c r.keys),
    )

-- A cursor that no method leaves out of the ring.
abbrev pub IsRing : Rotor → Type 0
IsRing r = (r.cursor < len r) ⊎ (r.cursor ≡ 0)

pub insert-IsRing : (r : Rotor) (k : String) → IsRing (insert r k)
unfolding insert
insert-IsRing r k = ground arith

pub remove-IsRing : (r : Rotor) (k : String) → IsRing r → IsRing (remove r k)
unfolding remove remove_at
remove-IsRing r k h = ground arith

pub advance_past-IsRing : (r : Rotor) (o : ℕ) → o < len r → IsRing (advance_past r o)
unfolding advance_past
advance_past-IsRing r o h = inl (mod-lt (r.cursor + o + 1) (omega arith))
