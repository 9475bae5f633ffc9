-- ===== src/Lru/Entries.antt =====
-- What a cache finds after `Put`.
use xray_core_python.Prelude.{
  ℕ, suc, ◌≤◌, ◌<◌, ◌≡◌, refl, sym, ap, ◌∙◌, false, Option, none, some, List, [], ◌∷◌, ltb, ◌==◌,
  ==_refl, ==_iff, subst, if◌then◌else◌, length, All, lookup, insert, lookup-erase, lookup-insert,
  arith, Bool-cases, Option-cases, inl, inr,
}
use xray_core_python.Lru.{
  LruElement, Lru, unlink, move_to_front, value_of, get, peek_key_from_value, split_back,
  drop_entry, remove_back, linked, put_new, replaced, put, put_present, put_absent, get_present,
}

move_to_front-key_to_element :
    (id : ℕ) (l : Lru)
    → ((move_to_front id l).key_to_element ≡ l.key_to_element)
      × ((move_to_front id l).value_to_element ≡ l.value_to_element)
      × ((move_to_front id l).elements ≡ l.elements)
unfolding move_to_front
move_to_front-key_to_element id l = elim (Bool-cases (unlink id l.double_linkedlist).1) [
  | inl e ↦ rw e (refl, refl, refl)
  | inr e ↦ rw e (refl, refl, refl)
]

get_lem :
    (key id : ℕ) (l : Lru) (o : Option LruElement)
    → lookup key l.key_to_element ≡ some id
    → lookup id l.elements ≡ o
    → (get key l).1 ≡ value_of o
get_lem key id l o e f =
    ap (λ (t : Lru × Option ℕ). t.1) (get_present key id l e)
    ∙ ap (λ (x : Option LruElement). value_of x) f

peek_lem :
    (value : ℕ) (l l' : Lru)
    → lookup value l'.value_to_element ≡ none
    → peek_key_from_value value l' ≡ none
unfolding peek_key_from_value
peek_lem value l l' e = rw (e, peek_key_from_value) refl

lookup-replaced :
    (id key value : ℕ) (l : Lru)
    → lookup id (replaced id key value l).elements ≡ some (record { key = key; value = value })
lookup-replaced id key value l =
    lookup-insert id id (record { key = key; value = value }) l.elements
    ∙ ap (λ b. if b then some (record { key = key; value = value }) else lookup id l.elements)
        (==_refl id)

get-replaced :
    (key value id : ℕ) (l : Lru)
    → lookup key l.key_to_element ≡ some id
    → (get key (move_to_front id (replaced id key value l))).1 ≡ some value
get-replaced key value id l e =
    let l1 = replaced id key value l in
    let (k, v, s) = move_to_front-key_to_element id l1 in
    get_lem key id (move_to_front id l1) (some (record { key = key; value = value }))
      (ap (λ m. lookup key m) k ∙ e) (ap (λ m. lookup id m) s ∙ lookup-replaced id key value l)

-- After `Put` of a new value under a key that is there, `Get` finds the value, but the value does
-- not lead back to the key: where it was unknown before, it is so still.
pub put_replaces :
    (key value id : ℕ) (l : Lru)
    → lookup key l.key_to_element ≡ some id
    → lookup value l.value_to_element ≡ none
    → ((get key (put key value l)).1 ≡ some value)
      × (peek_key_from_value value (put key value l) ≡ none)
put_replaces key value id l e f =
    let l1 = replaced id key value l in
    let (k, v, s) = move_to_front-key_to_element id l1 in
    rw (put_present key value id l e) (
      get-replaced key value id l e,
      peek_lem value l (move_to_front id l1) (ap (λ m. lookup value m) v ∙ f),
    )

-- An element that is found under its key, and was made before the next one.
abbrev pub IsFound : Lru → ℕ → Type 0
IsFound l id =
    (e : LruElement) × (lookup id l.elements ≡ some e)
    × (lookup e.key l.key_to_element ≡ some id)
    × (id < l.fresh)

abbrev pub IsLinked : Lru → Type 0
IsLinked l = All (IsFound l) l.double_linkedlist

All-back {κ} : (P : ℕ → Type κ) (i : ℕ) (l : List ℕ) → P i → All P l → P (split_back i l).1
All-back P i [] p h = p
All-back P i (j ∷ l) p h = All-back P j l h.0 h.1

get-linked : (key value : ℕ) (l : Lru) → (get key (linked key value l)).1 ≡ some value
get-linked key value l =
    get_lem key l.fresh (linked key value l) (some (record { key = key; value = value }))
      (rw (==_refl key) refl) (rw (==_refl l.fresh) refl)

-- What is left of the new entry when another element is dropped.
get-drop_entry :
    (key value : ℕ) (e : LruElement) (kept : List ℕ) (l : Lru)
    → (e.key == key) ≡ false
    → (get key (drop_entry (some e) (record (linked key value l) { double_linkedlist = kept }))).1
      ≡ some value
get-drop_entry key value e kept l other =
    get_lem key l.fresh
      (drop_entry (some e) (record (linked key value l) { double_linkedlist = kept }))
      (some (record { key = key; value = value }))
      (lookup-erase key e.key (insert key l.fresh l.key_to_element)
        ∙ ap (λ b. if b then none else lookup key (insert key l.fresh l.key_to_element)) other
        ∙ lookup-insert key key l.fresh l.key_to_element
        ∙ ap (λ b. if b then some l.fresh else lookup key l.key_to_element) (==_refl key))
      (lookup-insert l.fresh l.fresh (record { key = key; value = value }) l.elements
        ∙ ap
            (λ b.
              if b then some (record { key = key; value = value }) else lookup l.fresh l.elements)
            (==_refl l.fresh))

different_key :
    (key k id : ℕ) (m : List (ℕ × ℕ))
    → lookup key m ≡ none
    → lookup k m ≡ some id
    → (k == key) ≡ false
different_key key k id m e f = elim (Bool-cases (k == key)) [
  | inl same ↦
      let s : k ≡ key = (==_iff k key).0 same in
      let clash : some id ≡ none = sym f ∙ ap (λ x. lookup x m) s ∙ e in absurd (ground arith)
  | inr other ↦ other
]

older :
    (back key value : ℕ) (l : Lru) (e : LruElement)
    → back < l.fresh
    → lookup back l.elements ≡ some e
    → lookup back (linked key value l).elements ≡ some e
older back key value l e lt f =
    let other : (l.fresh == back) ≡ false = ground arith in
    lookup-insert back l.fresh (record { key = key; value = value }) l.elements
    ∙ ap (λ b. if b then some (record { key = key; value = value }) else lookup back l.elements)
        other
    ∙ f

get-remove_back :
    (key value j : ℕ) (rest : List ℕ) (l : Lru)
    → lookup key l.key_to_element ≡ none
    → l.double_linkedlist ≡ j ∷ rest
    → IsLinked l
    → (get key (remove_back l.fresh (j ∷ rest) (linked key value l))).1 ≡ some value
unfolding remove_back
get-remove_back key value j rest l absent e h =
    let (x, f, g, lt) =
      All-back (IsFound l) j rest (subst (All (IsFound l)) e h).0 (subst (All (IsFound l)) e h).1 in
    let (kept, back) = split_back j rest in
    ap
      (λ o.
        (get key
          (drop_entry o (record (linked key value l) { double_linkedlist = l.fresh ∷ kept }))).1)
      (older back key value l x lt f)
    ∙ get-drop_entry key value x (l.fresh ∷ kept) l
        (different_key key x.key back l.key_to_element absent g)

some_element : (l : List ℕ) → 1 ≤ length l → (j : ℕ) × (rest : List ℕ) × (l ≡ j ∷ rest)
some_element [] h = absurd (omega arith)
some_element (j ∷ rest) h = (j, rest, refl)

get-put_new :
    (key value : ℕ) (l : Lru)
    → 1 ≤ l.capacity
    → lookup key l.key_to_element ≡ none
    → IsLinked l
    → (get key (put_new key value l)).1 ≡ some value
unfolding put_new
get-put_new key value l c absent h =
    elim (Bool-cases (ltb l.capacity (suc (length l.double_linkedlist)))) [
      | inr fits ↦ rw fits (get-linked key value l)
      | inl over ↦
          let (j, rest, e) = some_element l.double_linkedlist (ground arith) in
          rw over (
            ap (λ t. (get key (remove_back l.fresh t (linked key value l))).1) e
            ∙ get-remove_back key value j rest l absent e h)
    ]

-- What `Put` stores `Get` finds, whether the key was there or not, and whatever has to be dropped
-- for it, in a cache of capacity 1 at least whose list is linked.
pub get-put :
    (key value : ℕ) (l : Lru)
    → 1 ≤ l.capacity
    → IsLinked l
    → (get key (put key value l)).1 ≡ some value
get-put key value l c h = elim (Option-cases (lookup key l.key_to_element)) [
  | inl e ↦ rw (put_absent key value l e) (get-put_new key value l c e h)
  | inr (id, e) ↦ rw (put_present key value id l e) (get-replaced key value id l e)
]
