-- ===== src/Scheduler/Rotor/Rotation.antt =====
-- The ring read from its cursor on: what the methods of `rotor` mean as operations on a queue.
use solace_broker_mcp.Common.{
  ℕ, suc, ◌+◌, ◌-◌, ◌%◌, ◌≤◌, ◌<◌, ◌≡◌, sym, ap, ◌∙◌, String, List, [], ◌∷◌, ◌++◌, arith, length,
  get_elem?, take, drop, length-append, length-take, length-drop, drop-append, take-append,
  take-take_le, drop-drop, take_split, drop_split, take_all, drop_all, ltb, inl, inr, Bool-cases,
  get_elem?-append_left, get_elem?-append_right, get_elem?-drop, get_elem?-take, leb, if◌then◌else◌,
}
use native.Mathlib.Nat.{mod-eq_of_lt, mod-eq-sub-mod}
use mathlib.Core.List.{append-nil, append_assoc}
use solace_broker_mcp.Scheduler.Rotor.{Rotor, len, at, advance_past, insert}

module _ {ℓ} {A : Type ℓ} where
  -- The list turned so that its entry `n` comes first.
  unfoldable pub rotate : ℕ → List A → List A
  rotate n xs = drop n xs ++ take n xs

  pub length-rotate : (n : ℕ) (xs : List A) → length (rotate n xs) ≡ length xs
  unfolding rotate
  length-rotate n xs =
      omega (arith, length-append (drop n xs) (take n xs), length-drop n xs, length-take n xs)

  rotate_within :
      (n m : ℕ) (xs : List A) → n + m ≤ length xs → rotate m (rotate n xs) ≡ rotate (n + m) xs
  unfolding rotate
  rotate_within n m xs h =
      let inside : m - length (drop n xs) ≡ 0 = omega (arith, length-drop n xs) in
      rw (drop-append m (drop n xs) (take n xs), take-append m (drop n xs) (take n xs), inside)
        (simp (drop-drop m n xs, append_assoc, append-nil, take_split n m xs))

  rotate_around :
      (n m : ℕ) (xs : List A)
      → n ≤ length xs
      → m ≤ length xs
      → length xs ≤ n + m
      → rotate m (rotate n xs) ≡ rotate (n + m - length xs) xs
  unfolding rotate
  rotate_around n m xs hn hm h =
      let p : ℕ = n + m - length xs in
      let over : m - length (drop n xs) ≡ p = omega (arith, length-drop n xs) in
      rw (drop-append m (drop n xs) (take n xs), take-append m (drop n xs) (take n xs), over)
        (rw
          (
            drop_all m (drop n xs) (omega (arith, length-drop n xs)),
            take_all m (drop n xs) (omega (arith, length-drop n xs)),
            take-take_le p n xs (omega arith),
          )
          (sym (append_assoc (drop p (take n xs)) (drop n xs) (take p xs))
            ∙ ap (λ ys. ys ++ take p xs) (drop_split p n xs (omega arith))))

-- The keys in the order in which the next scan meets them.
abbrev pub rotation : Rotor → List String
rotation r = rotate r.cursor r.keys

mod_around : (a n : ℕ) → n ≤ a → a < n + n → a % n ≡ a - n
mod_around a n h k = mod-eq-sub-mod h ∙ mod-eq_of_lt (omega arith)

-- One turn of a ring by an offset and a cursor, as one rotation by the remainder.
rotate-rotate :
    (c o n : ℕ) (xs : List String)
    → c < length xs
    → o ≤ length xs
    → n ≡ (c + o) % length xs
    → rotate n xs ≡ rotate o (rotate c xs)
rotate-rotate c o n xs hc ho e = elim (Bool-cases (ltb (c + o) (length xs))) [
  | inl lt ↦
      let same : n ≡ c + o = e ∙ mod-eq_of_lt (ground arith) in
      rw same (sym (rotate_within c o xs (ground arith)))
  | inr ge ↦
      let less : n ≡ c + o - length xs =
        e ∙ mod_around (c + o) (length xs) (ground arith) (omega arith) in
      rw less (sym (rotate_around c o xs (omega arith) ho (ground arith)))
]

-- For a cursor and an offset within the ring, the key at an offset is the entry of the rotation
-- at that index.
pub at-rotation :
    (r : Rotor) (offset : ℕ)
    → r.cursor < len r
    → offset < len r
    → at r offset ≡ get_elem? (rotation r) offset
unfolding at rotate
at-rotation r offset hc ho = elim (Bool-cases (ltb (r.cursor + offset) (len r))) [
  | inl lt ↦
      let same : (r.cursor + offset) % len r ≡ r.cursor + offset = mod-eq_of_lt (ground arith) in
      rw same (
        sym (get_elem?-drop r.cursor offset r.keys)
        ∙ sym (
            get_elem?-append_left (drop r.cursor r.keys) (take r.cursor r.keys) offset
              (ground (arith, length-drop r.cursor r.keys))))
  | inr ge ↦
      let i : ℕ = r.cursor + offset - len r in
      let less : (r.cursor + offset) % len r ≡ i = mod_around _ _ (ground arith) (omega arith) in
      let past : offset ≡ length (drop r.cursor r.keys) + i =
        ground (arith, length-drop r.cursor r.keys) in
      rw less (
        sym (get_elem?-take r.cursor i r.keys (ground arith))
        ∙ sym (get_elem?-append_right (drop r.cursor r.keys) (take r.cursor r.keys) i)
        ∙ ap (get_elem? (drop r.cursor r.keys ++ take r.cursor r.keys)) (sym past))
]

-- For a cursor and an offset within the ring, the rotation after `advance_past` begins with the
-- entry behind the offset.
pub rotation-advance_past :
    (r : Rotor) (offset : ℕ)
    → r.cursor < len r
    → offset < len r
    → rotation (advance_past r offset) ≡ rotate (offset + 1) (rotation r)
unfolding advance_past
rotation-advance_past r offset hc ho =
    rotate-rotate r.cursor (offset + 1) _ r.keys hc (omega arith)
      (ap (λ n. n % len r) (omega arith))

insert_at :
    (c : ℕ) (xs : List String) (key : String)
    → c ≤ length xs
    → let ys = take c xs ++ (key ∷ drop c xs) in
      rotate (if leb (length ys) (c + 1) then 0 else c + 1) ys ≡ rotate c xs ++ key ∷ []
unfolding rotate
insert_at c xs key h =
    let ys : List String = take c xs ++ (key ∷ drop c xs) in
    let size : length (take c xs) ≡ c = omega (arith, length-take c xs) in
    let total : length ys ≡ suc (length xs) =
      omega
        (arith, length-append (take c xs) (key ∷ drop c xs), length-take c xs, length-drop c xs) in
    elim (Bool-cases (leb (length ys) (c + 1))) [
      | inl end ↦
          let whole : drop c xs ≡ [] = drop_all c xs (ground (arith, total)) in
          rw (end, whole) (append-nil (take c xs ++ key ∷ []))
      | inr more ↦
          let one : c + 1 - length (take c xs) ≡ 1 = omega (arith, size) in
          rw
            (
              more,
              drop-append (c + 1) (take c xs) (key ∷ drop c xs),
              take-append (c + 1) (take c xs) (key ∷ drop c xs),
              one,
            )
            (rw
              (
                drop_all (c + 1) (take c xs) (omega (arith, size)),
                take_all (c + 1) (take c xs) (omega (arith, size)),
              )
              (sym (append_assoc (drop c xs) (take c xs) (key ∷ []))))
    ]

-- If the cursor is within the ring, a new key is put at the end of the rotation.
pub rotation-insert :
    (r : Rotor) (key : String) → r.cursor ≤ len r → rotation (insert r key) ≡ rotation r ++ key ∷ []
unfolding insert rotate
rotation-insert r key hc =
    let capped : (if ltb (len r) r.cursor then len r else r.cursor) ≡ r.cursor = ground arith in
    rw capped (insert_at r.cursor r.keys key hc)
