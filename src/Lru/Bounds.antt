-- ===== src/Lru/Bounds.antt =====
-- The cache holds no more than its capacity.
use xray_core_python.Prelude.{
  ℕ, suc, ◌+◌, ◌≤◌, ◌≡◌, refl, ap, ◌∙◌, true, Option, none, some, List, [], ◌∷◌, ltb, length,
  lookup, arith, Bool-cases, Option-cases, inl, inr,
}
use xray_core_python.Lru.{
  LruElement, Lru, unlink, move_to_front, get, split_back, remove_back, put_new, put, drop_entry,
  linked, replaced, put_present, put_absent, get_present, get_absent,
}

length-unlink :
    (id : ℕ) (l : List ℕ) → (unlink id l).1 ≡ true → length (unlink id l).0 + 1 ≡ length l
length-unlink id [] h = absurd (ground arith)
length-unlink id (i ∷ l) h = ground (arith, length-unlink id l)

pub length-move_to_front :
    (id : ℕ) (l : Lru) → length (move_to_front id l).double_linkedlist ≡ length l.double_linkedlist
unfolding move_to_front
length-move_to_front id l = elim (Bool-cases (unlink id l.double_linkedlist).1) [
  | inl e ↦ rw e (omega (arith, length-unlink id l.double_linkedlist e))
  | inr e ↦ rw e refl
]

length-split_back : (i : ℕ) (l : List ℕ) → length (split_back i l).0 ≡ length l
length-split_back i [] = refl
length-split_back i (j ∷ l) = omega (arith, length-split_back j l)

drop_entry-double_linkedlist :
    (o : Option LruElement) (l : Lru) → (drop_entry o l).double_linkedlist ≡ l.double_linkedlist
drop_entry-double_linkedlist none l = refl
drop_entry-double_linkedlist (some e) l = refl

length-remove_back :
    (front : ℕ) (rest : List ℕ) (l : Lru)
    → length (remove_back front rest l).double_linkedlist ≡ length rest
unfolding remove_back
length-remove_back front rest l =
    ap (λ (t : List ℕ). length t)
      (drop_entry-double_linkedlist (lookup (split_back front rest).1 l.elements)
        (record l { double_linkedlist = (split_back front rest).0 }))
    ∙ length-split_back front rest

length-put_new :
    (key value : ℕ) (l : Lru)
    → length l.double_linkedlist ≤ l.capacity
    → length (put_new key value l).double_linkedlist ≤ l.capacity
unfolding put_new
length-put_new key value l h =
    elim (Bool-cases (ltb l.capacity (suc (length l.double_linkedlist)))) [
      | inl over ↦
          rw over
            (omega (arith, length-remove_back l.fresh l.double_linkedlist (linked key value l)))
      | inr fits ↦ rw fits (ground arith)
    ]

length-put :
    (key value : ℕ) (l : Lru)
    → length l.double_linkedlist ≤ l.capacity
    → length (put key value l).double_linkedlist ≤ l.capacity
length-put key value l h = elim (Option-cases (lookup key l.key_to_element)) [
  | inl e ↦ rw (put_absent key value l e) (length-put_new key value l h)
  | inr (id, e) ↦
      rw (put_present key value id l e)
        (omega (arith, length-move_to_front id (replaced id key value l)))
]

length-get :
    (key : ℕ) (l : Lru) → length (get key l).0.double_linkedlist ≡ length l.double_linkedlist
length-get key l = elim (Option-cases (lookup key l.key_to_element)) [
  | inl e ↦ rw (get_absent key l e) refl
  | inr (id, e) ↦ rw (get_present key id l e) (length-move_to_front id l)
]

-- `Put` keeps a list that is within the capacity within it, and `Get` keeps its length.
pub put-length :
    (key value : ℕ) (l : Lru)
    → length l.double_linkedlist ≤ l.capacity
    → (length (put key value l).double_linkedlist ≤ l.capacity)
      × (length (get key l).0.double_linkedlist ≡ length l.double_linkedlist)
put-length key value l h = (length-put key value l h, length-get key l)
