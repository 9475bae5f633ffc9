-- ===== src/Strmatcher/Substr.antt =====
-- xray-go/common/geodata/strmatcher/matchergroup_substr.go, and the loop over the occurrences.
use xray_core_python.Prelude.{
  ℕ, zero, suc, ◌+◌, ◌*◌, ◌%◌, ◌<◌, ◌≡◌, refl, ap, ◌∙◌, Bool, true, false, ◌||◌, none, some, List,
  [], ◌∷◌, ◌++◌, map, leb, if◌then◌else◌, length, length-take, get_or, take, u32, arith,
  Option-cases, inl, inr, has_prefix, contains, is_some, or_false, take-all,
}
use mathlib.Core.Option
use mathlib.Core.Option.{Option}
use xray_core_python.Strmatcher.{later, last_index}

pub record SubstrMatcherGroup : Type 0 where
  pub patterns : List (List ℕ)
  pub values : List ℕ

abbrev pub new_substr_group : SubstrMatcherGroup
new_substr_group = record { patterns = []; values = [] }

abbrev pub add_substr_matcher : List ℕ → ℕ → SubstrMatcherGroup → SubstrMatcherGroup
add_substr_matcher pattern value g = record {
  patterns = g.patterns ++ (pattern ∷ []);
  values = g.values ++ (value ∷ []);
}

-- The loop of `Match` over the occurrences of a pattern, from the last one on.
unfoldable pub occurrences : ℕ → List ℕ → List ℕ → Option (List ℕ)
occurrences zero pattern input = none
occurrences (suc fuel) pattern input = elim (last_index pattern input) [
  | none ↦ some []
  | some j ↦ Option.map (λ js. j ∷ js) (occurrences fuel pattern (take j input))
]

-- An entry of the result before it is sorted: the position, and the index of the pattern.
abbrev pub entry : ℕ → ℕ → ℕ
entry j i = u32 (j * 65536) + u32 i % 65536

unfoldable pub entries : ℕ → ℕ → List (List ℕ) → List ℕ → Option (List ℕ)
entries fuel i [] input = some []
entries fuel i (p ∷ ps) input = elim (occurrences fuel p input) [
  | none ↦ none
  | some js ↦ Option.map (λ rest. map (λ j. entry j i) js ++ rest) (entries fuel (suc i) ps input)
]

-- `sort.Slice` by `<`, as the sorted list that there is.
abbrev pub insert_entry : ℕ → List ℕ → List ℕ
insert_entry x [] = x ∷ []
insert_entry x (y ∷ ys) = let rest = insert_entry x ys in if leb x y then x ∷ (y ∷ ys) else y ∷ rest

abbrev pub sort_entries : List ℕ → List ℕ
sort_entries [] = []
sort_entries (x ∷ xs) = insert_entry x (sort_entries xs)

-- `Match`, or none for a loop that does not end.
unfoldable pub substr_match : ℕ → List ℕ → SubstrMatcherGroup → Option (List ℕ)
substr_match fuel input g =
    Option.map (λ es. map (λ e. get_or g.values (e % 65536) 0) (sort_entries es))
      (entries fuel 0 g.patterns input)

abbrev pub contains_any : List (List ℕ) → List ℕ → Bool
contains_any [] input = false
contains_any (p ∷ ps) input =
    let rest = contains_any ps input in if contains p input then true else rest

unfoldable pub substr_match_any : List ℕ → SubstrMatcherGroup → Bool
substr_match_any input g = contains_any g.patterns input

-- Whether a list of patterns has no empty one.
abbrev pub no_empty : List (List ℕ) → Bool
no_empty [] = true
no_empty ([] ∷ ps) = false
no_empty ((c ∷ p) ∷ ps) = no_empty ps

later_bound :
    (b : Bool) (o : Option ℕ) (j n : ℕ)
    → ((i : ℕ) → o ≡ some i → i < n)
    → later b o ≡ some j
    → j < suc n
later_bound b (some i) j n h e = let l = h i refl in ground (arith, e, l)
later_bound true none j n h e = ground (arith, e)
later_bound false none j n h e = absurd (cc)

last_index_bound : (c : ℕ) (p s : List ℕ) (j : ℕ) → last_index (c ∷ p) s ≡ some j → j < length s
last_index_bound c p [] j h = absurd (cc)
last_index_bound c p (d ∷ s) j h =
    later_bound (has_prefix (c ∷ p) (d ∷ s)) (last_index (c ∷ p) s) j (length s)
      (last_index_bound c p s) h

later-is_some : (b : Bool) (o : Option ℕ) → is_some (later b o) ≡ (b || is_some o)
later-is_some true (some i) = refl
later-is_some false (some i) = refl
later-is_some true none = refl
later-is_some false none = refl

pub last_index-contains : (p s : List ℕ) → is_some (last_index p s) ≡ contains p s
last_index-contains p [] = later-is_some (has_prefix p []) none ∙ or_false (has_prefix p [])
last_index-contains p (d ∷ s) =
    later-is_some (has_prefix p (d ∷ s)) (last_index p s)
    ∙ ap (λ b. has_prefix p (d ∷ s) || b) (last_index-contains p s)

abbrev pub occurrences_step : (n : ℕ) (p s : List ℕ) → Option ℕ → Option (List ℕ)
occurrences_step n p s none = some []
occurrences_step n p s (some j) = Option.map (λ js. j ∷ js) (occurrences n p (take j s))

pub occurrences-suc :
    (n : ℕ) (p s : List ℕ) → occurrences (suc n) p s ≡ occurrences_step n p s (last_index p s)
unfolding occurrences
occurrences-suc n p s = elim (Option-cases (last_index p s)) [
  | inl e ↦ rw (e, occurrences) refl
  | inr (j, e) ↦ rw (e, occurrences) refl
]

pub map-is_some : {A B : Type 0} (f : A → B) (o : Option A) → is_some (Option.map f o) ≡ is_some o
map-is_some f none = refl
map-is_some f (some a) = refl

-- The loop over the occurrences of a pattern that is not empty ends.
occurrences_end : (n c : ℕ) (p s : List ℕ) → length s < n → is_some (occurrences n (c ∷ p) s) ≡ true
occurrences_end zero c p s h = absurd (omega arith)
occurrences_end (suc n) c p s h =
    ap is_some (occurrences-suc n (c ∷ p) s) ∙ elim (Option-cases (last_index (c ∷ p) s)) [
      | inl e ↦ rw (e) refl
      | inr (j, e) ↦
          let l = last_index_bound c p s j e in
          rw (e) (
            map-is_some (λ js. j ∷ js) (occurrences n (c ∷ p) (take j s))
            ∙ occurrences_end n c p (take j s) (omega (arith, l, h, length-take j s)))
    ]

last_index_nil : (s : List ℕ) → last_index [] s ≡ some (length s)
last_index_nil [] = refl
last_index_nil (c ∷ s) = ap (later true) (last_index_nil s)

-- The loop over the occurrences of the empty pattern does not.
occurrences_nil : (n : ℕ) (s : List ℕ) → is_some (occurrences n [] s) ≡ false
occurrences_nil zero s = unfold occurrences in refl
occurrences_nil (suc n) s =
    ap is_some (occurrences-suc n [] s)
    ∙ ap (λ o. is_some (occurrences_step n [] s o)) (last_index_nil s)
    ∙ map-is_some (λ js. length s ∷ js) (occurrences n [] (take (length s) s))
    ∙ ap (λ t. is_some (occurrences n [] t)) (take-all (length s) s (omega arith))
    ∙ occurrences_nil n s

entries_end :
    (n i : ℕ) (ps : List (List ℕ)) (s : List ℕ)
    → length s < n
    → is_some (entries n i ps s) ≡ no_empty ps
unfolding entries
entries_end n i [] s h = refl
entries_end n i ([] ∷ ps) s h = elim (Option-cases (occurrences n [] s)) [
  | inl e ↦ rw (e, entries) refl
  | inr (js, e) ↦ let l = occurrences_nil n s in absurd (cc)
]
entries_end n i ((c ∷ p) ∷ ps) s h = elim (Option-cases (occurrences n (c ∷ p) s)) [
  | inl e ↦ let l = occurrences_end n c p s h in absurd (cc)
  | inr (js, e) ↦
      rw (e, entries)
        (map-is_some (λ rest. map (λ j. entry j i) js ++ rest) (entries n (suc i) ps s)
          ∙ entries_end n (suc i) ps s h)
]

-- With a round for each byte and one more, `Match` ends just when no pattern is empty. With an
-- empty pattern no number of rounds is enough.
pub substr_match-no_empty :
    (n : ℕ) (s : List ℕ) (g : SubstrMatcherGroup)
    → length s < n
    → is_some (substr_match n s g) ≡ no_empty g.patterns
unfolding substr_match
substr_match-no_empty n s g h =
    map-is_some (λ es. map (λ e. get_or g.values (e % 65536) 0) (sort_entries es))
      (entries n 0 g.patterns s)
    ∙ entries_end n 0 g.patterns s h
