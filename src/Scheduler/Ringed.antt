-- ===== src/Scheduler/Ringed.antt =====
-- A map and the rotor over its keys, as both levels of the scheduler keep them.
use solace_broker_mcp.Common.{ℕ, ◌≤◌, ◌<◌, ◌≡◌, refl, String, none, some, arith, inr, Option, []}
use solace_broker_mcp.Common.Assoc.{
  Assoc, find, put, del, present, Unique, put-Unique, del-Unique, find-put, find-del, stored,
}
use solace_broker_mcp.Scheduler.Rotor.{Rotor, len, advance_past, insert, remove}
use solace_broker_mcp.Scheduler.Rotor
use solace_broker_mcp.Scheduler.Rotor.Members.{
  occ, IsRing, occ-insert, occ-remove, insert-IsRing, remove-IsRing, advance_past-IsRing,
}

-- The keys of the map are distinct, and the rotor holds each of them once and nothing else.
pub record Ringed {V : Type 0} (r : Rotor) (m : Assoc V) : Type 0 where
  pub unique : Unique m
  pub ring : IsRing r
  pub same : (k : String) → occ k r.keys ≡ present k m

stored-le : {V : Type 0} (o : Option V) → stored o ≤ 1
stored-le none = omega arith
stored-le (some v) = omega arith

module _ {V : Type 0} (r : Rotor) (m : Assoc V) (h : Ringed r m) (k : String) where
  pub put_old-Ringed : (v w : V) → find k m ≡ some w → Ringed r (put k v m)
  unfolding present
  put_old-Ringed v w e = record {
    unique = put-Unique k v m h.unique;
    ring = h.ring;
    same = λ j. ground (arith, h.same j, find-put k j v m);
  }

  pub put_new-Ringed : (v : V) → find k m ≡ none → Ringed (insert r k) (put k v m)
  unfolding present
  put_new-Ringed v e = record {
    unique = put-Unique k v m h.unique;
    ring = insert-IsRing r k;
    same = λ j. ground (arith, h.same j, find-put k j v m, occ-insert r k j);
  }

  pub del-Ringed : Ringed (remove r k) (del k m)
  unfolding present
  del-Ringed =
      let once : occ k r.keys ≤ 1 = omega (arith, h.same k, stored-le (find k m)) in
      record {
        unique = del-Unique k m h.unique;
        ring = remove-IsRing r k h.ring;
        same = λ j. ground (arith, h.same j, find-del k j m h.unique, occ-remove r k j once);
      }

module _ {V : Type 0} (r : Rotor) (m : Assoc V) (h : Ringed r m) where
  pub advance_past-Ringed : (o : ℕ) → o < len r → Ringed (advance_past r o) m
  unfolding advance_past
  advance_past-Ringed o lt = record {
    unique = h.unique;
    ring = unfold advance_past in advance_past-IsRing r o lt;
    same = λ k. h.same k;
  }

pub empty-Ringed : (V : Type 0) → Ringed {V = V} Rotor.empty []
unfolding present find occ
empty-Ringed V = record { unique = tt; ring = inr refl; same = λ k. refl }
