-- ===== src/Lru.antt =====
-- xray-go/common/cache/lru.go: a cache that drops what was used least recently, looked up by key and
-- by value. Keys and values are numbers here: the code only compares them. The linked list is the
-- list of its elements' addresses, front first, and `elements` is the store behind the addresses.
pub mod Bounds
pub mod Entries
use xray_core_python.Prelude.{
  ℕ, suc, ◌+◌, Bool, true, false, Option, none, some, ◌≡◌, refl, List, [], ◌∷◌, ltb, ◌==◌,
  if◌then◌else◌, length, lookup, erase, insert,
}

pub record LruElement : Type 0 where
  pub key : ℕ
  pub value : ℕ

pub record Lru : Type 0 where
  pub capacity : ℕ
  pub double_linkedlist : List ℕ
  pub elements : List (ℕ × LruElement)
  pub key_to_element : List (ℕ × ℕ)
  pub value_to_element : List (ℕ × ℕ)
  -- The next address.
  pub fresh : ℕ

abbrev pub new_lru : ℕ → Lru
new_lru capacity = record {
  capacity = capacity;
  double_linkedlist = [];
  elements = [];
  key_to_element = [];
  value_to_element = [];
  fresh = 0;
}

-- A list without the first occurrence of an address, and whether there is one.
abbrev pub unlink : ℕ → List ℕ → List ℕ × Bool
unlink id [] = ([], false)
unlink id (i ∷ l) =
    let (rest, found) = unlink id l in if i == id then (l, true) else (i ∷ rest, found)

-- `list.MoveToFront` does nothing to an element that is not in the list.
unfoldable pub move_to_front : ℕ → Lru → Lru
move_to_front id l =
    let (rest, found) = unlink id l.double_linkedlist in
    if found then record l { double_linkedlist = id ∷ rest } else l

abbrev pub key_of : Option LruElement → Option ℕ
key_of none = none
key_of (some e) = some e.key

abbrev pub value_of : Option LruElement → Option ℕ
value_of none = none
value_of (some e) = some e.value

unfoldable pub get : ℕ → Lru → Lru × Option ℕ
get key l = elim (lookup key l.key_to_element) [
  | none ↦ (l, none)
  | some id ↦ (move_to_front id l, value_of (lookup id l.elements))
]

unfoldable pub get_key_from_value : ℕ → Lru → Lru × Option ℕ
get_key_from_value value l = elim (lookup value l.value_to_element) [
  | none ↦ (l, none)
  | some id ↦ (move_to_front id l, key_of (lookup id l.elements))
]

unfoldable pub peek_key_from_value : ℕ → Lru → Option ℕ
peek_key_from_value value l = elim (lookup value l.value_to_element) [
  | none ↦ none
  | some id ↦ key_of (lookup id l.elements)
]

-- The last address of a list that is not empty, and the list before it.
abbrev pub split_back : ℕ → List ℕ → List ℕ × ℕ
split_back i [] = ([], i)
split_back i (j ∷ l) = let (rest, back) = split_back j l in (i ∷ rest, back)

abbrev pub drop_entry : Option LruElement → Lru → Lru
drop_entry none l = l
drop_entry (some e) l = record l {
  key_to_element = erase e.key l.key_to_element;
  value_to_element = erase e.value l.value_to_element;
}

-- The removal of the last element from the list and from both maps.
unfoldable pub remove_back : ℕ → List ℕ → Lru → Lru
remove_back front rest l =
    let (kept, back) = split_back front rest in
    drop_entry (lookup back l.elements) (record l { double_linkedlist = kept })

-- The new element at the front, and in both maps.
abbrev pub linked : ℕ → ℕ → Lru → Lru
linked key value l =
    let id = l.fresh in
    record l {
      double_linkedlist = id ∷ l.double_linkedlist;
      elements = insert id (record { key = key; value = value }) l.elements;
      key_to_element = insert key id l.key_to_element;
      value_to_element = insert value id l.value_to_element;
      fresh = id + 1;
    }

-- The branch of `Put` for a key that is not there.
unfoldable pub put_new : ℕ → ℕ → Lru → Lru
put_new key value l =
    let l1 = linked key value l in
    if ltb l.capacity (length l1.double_linkedlist)
    then remove_back l.fresh l.double_linkedlist l1
    else l1

-- The branch for a key that is there: the element gets a new value.
abbrev pub replaced : ℕ → ℕ → ℕ → Lru → Lru
replaced id key value l = record l {
  elements = insert id (record { key = key; value = value }) l.elements;
}

unfoldable pub put : ℕ → ℕ → Lru → Lru
put key value l = elim (lookup key l.key_to_element) [
  | some id ↦ move_to_front id (replaced id key value l)
  | none ↦ put_new key value l
]

pub put_present :
    (key value id : ℕ) (l : Lru)
    → lookup key l.key_to_element ≡ some id
    → put key value l ≡ move_to_front id (replaced id key value l)
unfolding put
put_present key value id l e = rw (e, put) refl

pub put_absent :
    (key value : ℕ) (l : Lru)
    → lookup key l.key_to_element ≡ none
    → put key value l ≡ put_new key value l
unfolding put
put_absent key value l e = rw (e, put) refl

pub get_present :
    (key id : ℕ) (l : Lru)
    → lookup key l.key_to_element ≡ some id
    → get key l ≡ (move_to_front id l, value_of (lookup id l.elements))
unfolding get
get_present key id l e = rw (e, get) refl

pub get_absent : (key : ℕ) (l : Lru) → lookup key l.key_to_element ≡ none → get key l ≡ (l, none)
unfolding get
get_absent key l e = rw (e, get) refl
