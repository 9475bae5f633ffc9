-- ===== src/Tests/Caches.antt =====
-- A cache at concrete inputs.
use xray_core_python.Prelude.{◌≡◌, refl, none, some, [], ◌∷◌, arith}
use xray_core_python.Lru.{Lru, get, peek_key_from_value, put}
use xray_core_python.Lru.Entries.{IsLinked, put_replaces, get-put}

-- Full, with key 1 used last.
abbrev cache : Lru
cache = record {
  capacity = 2;
  double_linkedlist = 0 ∷ 1 ∷ [];
  elements = (0, record { key = 1; value = 10 }) ∷ (1, record { key = 2; value = 20 }) ∷ [];
  key_to_element = (1, 0) ∷ (2, 1) ∷ [];
  value_to_element = (10, 0) ∷ (20, 1) ∷ [];
  fresh = 2;
}

cache-IsLinked : IsLinked cache
cache-IsLinked = (
  (record { key = 1; value = 10 }, refl, refl, omega arith),
  ((record { key = 2; value = 20 }, refl, refl, omega arith), tt),
)

get-put_example : (get 3 (put 3 30 cache)).1 ≡ some 30
get-put_example = get-put 3 30 cache (omega arith) cache-IsLinked

put_replaces_example :
    ((get 1 (put 1 11 cache)).1 ≡ some 11) × (peek_key_from_value 11 (put 1 11 cache) ≡ none)
put_replaces_example = put_replaces 1 11 0 cache refl refl
