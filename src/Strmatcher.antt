-- ===== src/Strmatcher.antt =====
-- xray-go/common/geodata/strmatcher: matchers of domains, and the groups that match many at once.
-- A text is the list of its bytes. A regular expression, of Go's library, is a function on texts.
pub mod Trie
pub mod Labels
pub mod Suffixes
pub mod Substr
pub mod Linear
use xray_core_python.Prelude.{
  ℕ, zero, suc, ◌+◌, ◌-◌, ◌*◌, ◌%◌, ◌^◌, ◌≡◌, Bool, true, false, ◌&&◌, ◌||◌, not, Option, none,
  some, List, [], ◌∷◌, ◌++◌, reverse, map, ltb, leb, ◌==◌, if◌then◌else◌, length, get_or, take,
  drop, flatten, u32, same_bytes, has_prefix, has_suffix, contains,
}

pub data Matcher : Type 0 where
  full domain substr : List ℕ → Matcher
  regex : (List ℕ → Bool) → Matcher

-- `Match` of each matcher: the text is one pattern, a domain below it, has it inside, or is accepted.
unfoldable pub matches : Matcher → List ℕ → Bool
matches (full p) s = same_bytes p s
matches (domain p) s =
    has_suffix p s && (length s == length p || get_or s (length s - length p - 1) 0 == b'.')
matches (substr p) s = contains p s
matches (regex f) s = f s

-- The labels of a domain from the last one on, which the loops of the tries cut out. The first
-- argument is what was read of a label, and the second what is before it, backwards. A dot in front
-- of the whole text is read over.
unfoldable pub labels_from : List ℕ → List ℕ → List (List ℕ)
labels_from label [] = label ∷ []
labels_from label (c ∷ []) = if c == b'.' then label ∷ [] else (c ∷ label) ∷ []
labels_from label (c ∷ (d ∷ s)) =
    let cut = labels_from [] (d ∷ s) in
    let more = labels_from (c ∷ label) (d ∷ s) in if c == b'.' then label ∷ cut else more

abbrev pub labels_back : List ℕ → List (List ℕ)
labels_back [] = []
labels_back (c ∷ s) = labels_from [] (c ∷ s)

abbrev pub labels : List ℕ → List (List ℕ)
labels s = labels_back (reverse s)

-- A node of a trie: a value, and the nodes below it by their labels.
mutual
  pub data TrieNode (A : Type 0) : Type 0 where
    node : A → Children A → TrieNode A

  pub data Children (A : Type 0) : Type 0 where
    no_children : Children A
    child : List ℕ → TrieNode A → Children A → Children A

-- `children[part]`
abbrev pub find_child : {A : Type 0} → List ℕ → Children A → Option (TrieNode A)
find_child part no_children = none
find_child part (child l t cs) =
    let rest = find_child part cs in if same_bytes l part then some t else rest

abbrev pub node_value : {A : Type 0} → TrieNode A → A
node_value (node a cs) = a

abbrev pub children_of : {A : Type 0} → TrieNode A → Children A
children_of (node a cs) = cs

-- `children[part] = next`
abbrev pub put_child : {A : Type 0} → List ℕ → TrieNode A → Children A → Children A
put_child part t cs = child part t cs

-- The node below a label, or a new one.
abbrev pub next_node : {A : Type 0} → A → Option (TrieNode A) → TrieNode A
next_node new none = node new no_children
next_node new (some t) = t

-- The loop of `AddDomainMatcher` over the labels, and what it does to the value of the last node.
unfoldable pub add_labels : {A : Type 0} → A → (A → A) → List (List ℕ) → TrieNode A → TrieNode A
add_labels new f [] t = node (f (node_value t)) (children_of t)
add_labels new f (part ∷ parts) t = node (node_value t) (
    put_child part (add_labels new f parts (next_node new (find_child part (children_of t))))
      (children_of t))

-- `DomainMatcherGroup`: the values of the matchers that end at a node.
abbrev pub DomainMatcherGroup : Type 0
DomainMatcherGroup = TrieNode (List ℕ)

abbrev pub new_domain_group : DomainMatcherGroup
new_domain_group = node [] no_children

unfoldable pub add_domain_matcher : List ℕ → ℕ → DomainMatcherGroup → DomainMatcherGroup
add_domain_matcher pattern value g = add_labels [] (λ vs. vs ++ (value ∷ [])) (labels pattern) g

-- The loop of `Match`. A node without children has nothing below it to go on to.
unfoldable pub match_labels : List (List ℕ) → DomainMatcherGroup → List (List ℕ)
match_labels [] g = []
match_labels (part ∷ parts) g = elim (find_child part (children_of g)) [
  | none ↦ []
  | some t ↦
      let rest = match_labels parts t in
      if length (node_value t) == 0 then rest else node_value t ∷ rest
]

-- `Match`, with `CompositeMatchesReverse`.
unfoldable pub domain_match : List ℕ → DomainMatcherGroup → List ℕ
unfolding match_labels
domain_match input g = flatten (reverse (match_labels (labels input) g))

-- The loop of `MatchAny`, of the group and of the set below, with the test of a node.
unfoldable pub any_label : {A : Type 0} → (A → Bool) → List (List ℕ) → TrieNode A → Bool
any_label found [] g = false
any_label found (part ∷ parts) g = elim (find_child part (children_of g)) [
  | none ↦ false
  | some t ↦ let rest = any_label found parts t in if found (node_value t) then true else rest
]

abbrev pub has_values : List ℕ → Bool
has_values vs = ltb 0 (length vs)

unfoldable pub domain_match_any : List ℕ → DomainMatcherGroup → Bool
domain_match_any input g = any_label has_values (labels input) g

-- `DomainMatcherSet`: whether a matcher ends at a node.
abbrev pub DomainMatcherSet : Type 0
DomainMatcherSet = TrieNode Bool

abbrev pub new_domain_set : DomainMatcherSet
new_domain_set = node false no_children

unfoldable pub add_to_set : List ℕ → DomainMatcherSet → DomainMatcherSet
add_to_set pattern g = add_labels false (λ matched. true) (labels pattern) g

unfoldable pub set_match_any : List ℕ → DomainMatcherSet → Bool
set_match_any input g = any_label (λ matched. matched) (labels input) g

-- `FullMatcherGroup`: values by their texts.
abbrev pub FullMatcherGroup : Type 0
FullMatcherGroup = List (List ℕ × List ℕ)

abbrev pub full_match : List ℕ → FullMatcherGroup → List ℕ
full_match input [] = []
full_match input ((p, vs) ∷ g) =
    let rest = full_match input g in if same_bytes p input then vs else rest

abbrev pub full_match_any : List ℕ → FullMatcherGroup → Bool
full_match_any input [] = false
full_match_any input ((p, vs) ∷ g) =
    let rest = full_match_any input g in if same_bytes p input then true else rest

abbrev pub add_full_matcher : List ℕ → ℕ → FullMatcherGroup → FullMatcherGroup
add_full_matcher pattern value g = (pattern, full_match pattern g ++ (value ∷ [])) ∷ g

-- `SimpleMatcherGroup`: matchers one by one.
abbrev pub SimpleMatcherGroup : Type 0
SimpleMatcherGroup = List (Matcher × ℕ)

unfoldable pub simple_match : List ℕ → SimpleMatcherGroup → List ℕ
simple_match input [] = []
simple_match input ((m, value) ∷ g) =
    let rest = simple_match input g in if matches m input then value ∷ rest else rest

unfoldable pub simple_match_any : List ℕ → SimpleMatcherGroup → Bool
simple_match_any input [] = false
simple_match_any input ((m, value) ∷ g) =
    let rest = simple_match_any input g in if matches m input then true else rest

-- `strings.LastIndex`: the start of the last occurrence, which is here or later.
abbrev pub later : Bool → Option ℕ → Option ℕ
later here (some i) = some (suc i)
later true none = some 0
later false none = none

abbrev pub last_index : List ℕ → List ℕ → Option ℕ
last_index p [] = later (has_prefix p []) none
last_index p (c ∷ s) = later (has_prefix p (c ∷ s)) (last_index p s)
