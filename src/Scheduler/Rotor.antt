-- ===== src/Scheduler/Rotor.antt =====
-- The type `rotor` of internal/semp/resilience/scheduler.go: a ring of keys with a cursor, used by
-- both levels of the rotation. A method that writes through the pointer returns the new rotor.
pub mod Rotation
pub mod Members
pub mod Removal
pub mod Refines
use mathlib.Core.Option
use solace_broker_mcp.Common.{
  ℕ, zero, suc, ◌+◌, ◌-◌, ◌%◌, String, List, [], ◌∷◌, ◌++◌, Option, none, some, ite, key_eq, length,
  get_elem?, take, drop, ltb, leb, ◌==◌, if◌then◌else◌, ◌||◌,
}

pub record Rotor : Type 0 where
  pub keys : List String
  pub cursor : ℕ

-- The zero value that a new `Scheduler` and a new `subjectState` hold.
abbrev pub empty : Rotor
empty = record { keys = []; cursor = 0 }

abbrev pub len : Rotor → ℕ
len r = length r.keys

-- An index out of range, where Go panics, is `none`.
unfoldable pub at : Rotor → ℕ → Option String
at r offset = get_elem? r.keys ((r.cursor + offset) % len r)

unfoldable pub advance_past : Rotor → ℕ → Rotor
advance_past r offset = record r { cursor = (r.cursor + offset + 1) % len r }

-- `append`, `copy` and the write at the cursor shift what stands from the cursor on by one place.
unfoldable pub insert : Rotor → String → Rotor
insert r key =
    let c = if ltb (len r) r.cursor then len r else r.cursor in
    let keys = take c r.keys ++ (key ∷ drop c r.keys) in
    record { keys = keys; cursor = if leb (length keys) (c + 1) then 0 else c + 1 }

-- The search of `remove`: the index of the first entry that equals the key.
unfoldable pub index_of : String → List String → Option ℕ
index_of key [] = none
index_of key (k ∷ ks) = ite (key_eq k key) (some 0) (Option.map suc (index_of key ks))

unfoldable pub remove_at : Rotor → ℕ → Rotor
remove_at r i =
    let keys = take i r.keys ++ drop (i + 1) r.keys in
    let c = if ltb i r.cursor then r.cursor - 1 else r.cursor in
    record { keys = keys; cursor = if length keys == 0 || leb (length keys) c then 0 else c }

unfoldable pub remove : Rotor → String → Rotor
unfolding remove_at index_of
remove r key = elim (index_of key r.keys) [ none ↦ r | some i ↦ remove_at r i ]
