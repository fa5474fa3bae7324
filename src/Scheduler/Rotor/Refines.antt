-- ===== src/Scheduler/Rotor/Refines.antt =====
-- A rotor of internal/semp/resilience/scheduler.go as a queue: its keys in the order of their turns,
-- with no cursor to be seen.
use solace_broker_mcp.Common.{
  ℕ, ◌+◌, ◌≤◌, ◌<◌, ◌≡◌, sym, ap, ◌∙◌, String, List, [], ◌∷◌, ◌++◌, key_eq, length, get_elem?,
  arith, inl, inr,
}
use solace_broker_mcp.Scheduler.Rotor.{Rotor, len, at, advance_past, insert, remove}
use solace_broker_mcp.Scheduler.Rotor.Rotation.{
  rotate, rotation, at-rotation, rotation-advance_past, rotation-insert, length-rotate,
}
use solace_broker_mcp.Scheduler.Rotor.Members.{
  occ, without, occ-insert, occ-remove, IsRing, insert-IsRing, remove-IsRing, advance_past-IsRing,
}
use solace_broker_mcp.Scheduler.Rotor.Removal.{rotation-remove, occ-rotate}

-- The methods that change a rotor.
pub data Move : Type 0 where
  take_turn : (offset : ℕ) → Move
  join leave : (key : String) → Move

pub move : Rotor → Move → Rotor
move r (take_turn offset) = advance_past r offset
move r (join key) = insert r key
move r (leave key) = remove r key

-- What they mean for the queue: whoever had the turn, and all before, go to the end; a new key goes to
-- the end; a key leaves.
unfoldable pub move_queue : List String → Move → List String
move_queue q (take_turn offset) = rotate (offset + 1) q
move_queue q (join key) = q ++ key ∷ []
move_queue q (leave key) = without key q

-- A turn is one that the queue has, and a key that joins is new.
unfoldable pub Possible : List String → Move → Type 0
Possible q (take_turn offset) = offset < length q
Possible q (join key) = occ key q ≡ 0
Possible q (leave key) = Unit

-- A rotor stands for a queue: its cursor is in range, no key is twice in it, and from the cursor on it
-- reads as the queue.
unfoldable pub Refines : Rotor → List String → Type 0
Refines r q = IsRing r × ((k : String) → occ k r.keys ≤ 1) × (rotation r ≡ q)

pub all_moves : Rotor → List Move → Rotor
all_moves r [] = r
all_moves r (m ∷ ms) = all_moves (move r m) ms

unfoldable pub all_moves_queue : List String → List Move → List String
all_moves_queue q [] = q
all_moves_queue q (m ∷ ms) = all_moves_queue (move_queue q m) ms

unfoldable pub AllPossible : List String → List Move → Type 0
AllPossible q [] = Unit
AllPossible q (m ∷ ms) = Possible q m × AllPossible (move_queue q m) ms

cursor_le : (r : Rotor) → IsRing r → r.cursor ≤ len r
cursor_le r (inl l) = omega arith
cursor_le r (inr z) = omega arith

cursor_lt : (r : Rotor) → IsRing r → 0 < len r → r.cursor < len r
cursor_lt r (inl l) h = l
cursor_lt r (inr z) h = omega arith

len-queue : (r : Rotor) (q : List String) → rotation r ≡ q → len r ≡ length q
len-queue r q e = sym (length-rotate r.cursor r.keys) ∙ ap length e

occ_queue : (k : String) (r : Rotor) (q : List String) → rotation r ≡ q → occ k q ≡ occ k r.keys
occ_queue k r q e = sym (ap (occ k) e) ∙ occ-rotate k r.cursor r.keys

move-Refines :
    (r : Rotor) (q : List String) (m : Move)
    → Refines r q
    → Possible q m
    → Refines (move r m) (move_queue q m)
unfolding move move_queue Possible Refines advance_past
move-Refines r q (take_turn offset) (ring, once, same) ok =
    let size = len-queue r q same in
    let here : offset < len r = omega (arith, size) in
    (
      advance_past-IsRing r offset here,
      once,
      rotation-advance_past r offset (cursor_lt r ring (omega arith)) here
          ∙ ap (rotate (offset + 1)) same,
    )
move-Refines r q (join key) (ring, once, same) ok = (
  insert-IsRing r key,
  λ k. elim (key_eq key k) [
    | yes e ↦ ground (arith, occ-insert r key k, occ_queue key r q same, ok)
    | no ne ↦ ground (arith, occ-insert r key k, once k)
  ],
  rotation-insert r key (cursor_le r ring) ∙ ap (λ l. l ++ key ∷ []) same,
)
move-Refines r q (leave key) (ring, once, same) ok = (
  remove-IsRing r key ring,
  λ k. ground (arith, occ-remove r key k (once key), once k),
  rotation-remove r key (cursor_le r ring) (once key) ∙ ap (without key) same,
)

all_moves-Refines :
    (r : Rotor) (q : List String) (ms : List Move)
    → Refines r q
    → AllPossible q ms
    → Refines (all_moves r ms) (all_moves_queue q ms)
unfolding all_moves all_moves_queue AllPossible
all_moves-Refines r q [] h ok = h
all_moves-Refines r q (m ∷ ms) h ok =
    all_moves-Refines (move r m) (move_queue q m) ms (move-Refines r q m h ok.0) ok.1

-- A rotor that stands for a queue still does after any methods that the queue allows, each of them
-- changing the queue as it should; and what it answers for a turn is what the queue has there.
pub rotor-Refines_queue :
    (r : Rotor) (q : List String) (ms : List Move) (offset : ℕ)
    → Refines r q
    → AllPossible q ms
    → offset < length (all_moves_queue q ms)
    → Refines (all_moves r ms) (all_moves_queue q ms)
      × (at (all_moves r ms) offset ≡ get_elem? (all_moves_queue q ms) offset)
unfolding Refines
rotor-Refines_queue r q ms offset h ok o =
    let after = all_moves r ms in
    let (ring, once, same) = all_moves-Refines r q ms h ok in
    let size = len-queue after (all_moves_queue q ms) same in
    (
      (ring, once, same),
      at-rotation after offset (cursor_lt after ring (omega (arith, size, o)))
            (omega (arith, size, o))
          ∙ ap (λ l. get_elem? l offset) same,
    )
