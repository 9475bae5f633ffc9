-- ===== src/Kcp/Receiving/Window.antt =====
-- The map of the receiving window, and the end of the loop that empties it.
use xray_core_python.Prelude.{
  ℕ, ◌≤◌, ◌<◌, ◌≡◌, true, false, none, some, List, [], ◌∷◌, ◌==◌, if◌then◌else◌, length, arith,
}
use xray_core_python.Kcp.Segment.{DataSegment}
use xray_core_python.Kcp.Receiving.{ReceivingWindow, find, delete, set, has}

pub length-delete_le : (id : ℕ) (m : List (ℕ × DataSegment)) → length (delete id m) ≤ length m
length-delete_le id [] = omega arith
length-delete_le id ((k, v) ∷ m) = ground (arith, length-delete_le id m)

-- Deleting a key that is there makes the map smaller.
pub length-delete_lt :
    (id : ℕ) (m : List (ℕ × DataSegment)) {v : DataSegment}
    → find id m ≡ some v
    → length (delete id m) < length m
length-delete_lt id [] e = cc
length-delete_lt id ((k, x) ∷ m) {v = v} e =
    ground (arith, length-delete_le id m, length-delete_lt id m {v = v})

pub find-delete :
    (id j : ℕ) (m : List (ℕ × DataSegment))
    → find j (delete id m) ≡ (if id == j then none else find j m)
find-delete id j [] = ground arith
find-delete id j ((k, x) ∷ m) = ground (arith, find-delete id j m)

-- `Set` stores a segment under a number that is free, and changes nothing under a number that is
-- taken; it touches no other number.
pub find-set :
    (id j : ℕ) (seg : DataSegment) (w : ReceivingWindow)
    → let (w', stored) = set id seg w in
      (stored ≡ (if has id w then false else true))
      × (find j w'.cache ≡ (
          if id == j
          then (elim (find id w.cache) [ none ↦ some seg | some old ↦ some old ])
          else find j w.cache))
unfolding set has
find-set id j seg w = ground arith
