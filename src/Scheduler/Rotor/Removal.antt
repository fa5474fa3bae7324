-- ===== src/Scheduler/Rotor/Removal.antt =====
-- What `remove` does to the order of the rotation.
use mathlib.Core.List.{append-nil}
use solace_broker_mcp.Common.{
  ℕ, ◌+◌, ◌-◌, ◌≤◌, ◌≡◌, ◌∙◌, sym, ap, String, List, some, inl, inr, arith, length, take, drop,
  take_all, drop_all, take-append-drop, ◌==◌, ◌||◌, ltb, leb, if◌then◌else◌, Option-cases,
  Bool-cases,
}
use solace_broker_mcp.Scheduler.Rotor.{Rotor, len, index_of, remove_at, remove}
use solace_broker_mcp.Scheduler.Rotor.Members.{
  occ, without, without_absent, occ-append, index_of-none, cut-without, add_one, occ-take_index,
  take-without, drop-without, without-append,
}
use solace_broker_mcp.Scheduler.Rotor.Rotation.{rotate, rotation}

rotate-without :
    (k : String) (n m : ℕ) (xs : List String)
    → m + occ k (take n xs) ≡ n
    → without k (rotate n xs) ≡ rotate m (without k xs)
unfolding rotate
rotate-without k n m xs h =
    rw (without-append k (drop n xs) (take n xs), take-without k n m xs h, drop-without k n m xs h)

rotate_end : (n : ℕ) (xs : List String) → length xs ≤ n → rotate n xs ≡ rotate 0 xs
unfolding rotate
rotate_end n xs h = rw (drop_all n xs h, take_all n xs h) (sym (append-nil xs))

rotate_reset :
    (c : ℕ) (xs : List String)
    → rotate (if length xs == 0 || leb (length xs) c then 0 else c) xs ≡ rotate c xs
rotate_reset c xs = elim (Bool-cases (leb (length xs) c)) [
  | inl e ↦ ground (arith, rotate_end c xs)
  | inr e ↦ ground (arith, rotate_end c xs)
]

rotation-remove_at :
    (r : Rotor) (k : String) (i : ℕ)
    → r.cursor ≤ len r
    → occ k r.keys ≤ 1
    → index_of k r.keys ≡ some i
    → rotation (remove_at r i) ≡ without k (rotation r)
unfolding remove_at
rotation-remove_at r k i hc u e =
    let c : ℕ = if ltb i r.cursor then r.cursor - 1 else r.cursor in
    let moved : c + occ k (take r.cursor r.keys) ≡ r.cursor =
      ground (arith, occ-take_index k i r.cursor r.keys e u) in
    rw (add_one i, cut-without k i r.keys e u, rotate-without k r.cursor c r.keys moved)
      (rotate_reset c (without k r.keys))

pub occ-rotate : (k : String) (n : ℕ) (xs : List String) → occ k (rotate n xs) ≡ occ k xs
unfolding rotate
occ-rotate k n xs = omega (
  arith,
  occ-append k (drop n xs) (take n xs),
  occ-append k (take n xs) (drop n xs),
  ap (occ k) (take-append-drop n xs),
)

-- If the cursor is within the ring and the key stands in it at most once, removing the key takes
-- it out of the rotation and leaves the order of the others, with the same one next (or, if it
-- was next, the one behind it).
pub rotation-remove :
    (r : Rotor) (k : String)
    → r.cursor ≤ len r
    → occ k r.keys ≤ 1
    → rotation (remove r k) ≡ without k (rotation r)
unfolding remove remove_at
rotation-remove r k hc u = elim (Option-cases (index_of k r.keys)) [
  | inl e ↦
      rw (e, remove)
        (sym
          (without_absent k (rotation r) (occ-rotate k r.cursor r.keys ∙ index_of-none k r.keys e)))
  | inr (i, e) ↦ rw (e, remove) (rotation-remove_at r k i hc u e)
]
