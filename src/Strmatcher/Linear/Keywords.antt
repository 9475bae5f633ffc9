-- ===== src/Strmatcher/Linear/Keywords.antt =====
-- Which values the group of keywords returns, through the packed and sorted entries.
use mathlib.Core.Option
use mathlib.Core.Option.{Option}
use xray_core_python.Prelude.{
  ℕ, zero, suc, ◌+◌, ◌%◌, ◌≤◌, ◌<◌, ◌≡◌, refl, sym, ap, ap₂, ◌∙◌, Bool, true, false, ◌&&◌, ◌||◌,
  none, some, List, [], ◌∷◌, ◌++◌, map, append_assoc, length, length-append, leb, ◌==◌, get_or,
  get_or-append, take, contains, arith, Bool-cases, Option-cases, inl, inr, is_some, or_swap,
}
use xray_core_python.Strmatcher.{last_index}
use xray_core_python.Strmatcher.Substr.{
  SubstrMatcherGroup, occurrences, occurrences-suc, occurrences_step, last_index-contains, entry,
  entries, insert_entry, sort_entries, substr_match,
}
use xray_core_python.Strmatcher.Linear.Has.{has, has-append}

abbrev pub some_in : List ℕ → Bool
some_in [] = false
some_in (x ∷ xs) = true

or_and : (a b : Bool) → (a || (b && a)) ≡ a
or_and a b = ground arith

module _ (v : ℕ) (f : ℕ → ℕ) where
  has-insert :
      (x : ℕ) (ys : List ℕ) → has v (map f (insert_entry x ys)) ≡ ((f x == v) || has v (map f ys))
  has-insert x [] = refl
  has-insert x (y ∷ ys) = elim (Bool-cases (leb x y)) [
    | inl e ↦ rw (e) refl
    | inr e ↦ rw (e, has-insert x ys) (or_swap (f y == v) (f x == v) (has v (map f ys)))
  ]

  -- Sorting keeps the values.
  has-sort_entries : (es : List ℕ) → has v (map f (sort_entries es)) ≡ has v (map f es)
  has-sort_entries [] = refl
  has-sort_entries (e ∷ es) =
      has-insert e (sort_entries es) ∙ ap (λ b. (f e == v) || b) (has-sort_entries es)

  map-append : (xs ys : List ℕ) → map f (xs ++ ys) ≡ map f xs ++ map f ys
  map-append [] ys = refl
  map-append (x ∷ xs) ys = ap (λ t. f x ∷ t) (map-append xs ys)

  -- Entries that stand for one value have it, unless there are none.
  has-same :
      (w : ℕ) (g : ℕ → ℕ) (js : List ℕ)
      → ((j : ℕ) → f (g j) ≡ w)
      → has v (map f (map g js)) ≡ (some_in js && (w == v))
  has-same w g [] h = refl
  has-same w g (j ∷ js) h = rw (h j, has-same w g js h) (or_and (w == v) (some_in js))

entry_index : (j i : ℕ) → i < 65536 → entry j i % 65536 ≡ i
entry_index j i h = omega (arith, h)

map_cons :
    (j : ℕ) (o : Option (List ℕ)) (js : List ℕ)
    → Option.map (λ l. j ∷ l) o ≡ some js
    → some_in js ≡ true
map_cons j none js h = absurd (cc)
map_cons j (some l) [] h = absurd (cc)
map_cons j (some l) (k ∷ js) h = refl

occurrences_none :
    (n : ℕ) (p s js : List ℕ) → occurrences_step n p s none ≡ some js → some_in js ≡ false
occurrences_none n p s [] h = refl
occurrences_none n p s (j ∷ js) h = absurd (cc)

-- Where a pattern occurs, it is contained.
occurrences-contains :
    (n : ℕ) (p s : List ℕ) (js : List ℕ) → occurrences n p s ≡ some js → some_in js ≡ contains p s
occurrences-contains zero p s js h = absurd (unfold occurrences in cc)
occurrences-contains (suc n) p s js h =
    let g = sym (occurrences-suc n p s) ∙ h in
    elim (Option-cases (last_index p s)) [
      | inl e ↦
          occurrences_none n p s js (sym (ap (occurrences_step n p s) e) ∙ g)
          ∙ ap is_some (sym e)
          ∙ last_index-contains p s
      | inr (j, e) ↦
          map_cons j (occurrences n p (take j s)) js (sym (ap (occurrences_step n p s) e) ∙ g)
          ∙ ap is_some (sym e)
          ∙ last_index-contains p s
    ]

-- The patterns that are contained, with their values.
abbrev pub hits : ℕ → List (List ℕ) → List ℕ → List ℕ → Bool
hits v [] ws s = false
hits v (p ∷ ps) [] s = false
hits v (p ∷ ps) (w ∷ ws) s = let rest = hits v ps ws s in (contains p s && (w == v)) || rest

module _ (n i : ℕ) (p : List ℕ) (ps : List (List ℕ)) (s : List ℕ) where
  -- What the entries are made of.
  entries_parts :
      (es : List ℕ)
      → entries n i (p ∷ ps) s ≡ some es
      → (js : List ℕ) × ((rest : List ℕ) × ((occurrences n p s ≡ some js)
            × ((entries n (suc i) ps s ≡ some rest) × (es ≡ map (λ j. entry j i) js ++ rest))))
  unfolding entries
  entries_parts es h = elim (Option-cases (occurrences n p s)) [
    | inl e ↦ let g : entries n i (p ∷ ps) s ≡ none = rw (e, entries) refl in absurd (cc)
    | inr (js, e) ↦ elim (Option-cases (entries n (suc i) ps s)) [
      | inl f ↦
          let g : entries n i (p ∷ ps) s ≡ none =
            rw (e, entries) (ap (Option.map (λ rest. map (λ j. entry j i) js ++ rest)) f) in
          absurd (cc)
      | inr (rest, f) ↦
          let g : entries n i (p ∷ ps) s ≡ some (map (λ j. entry j i) js ++ rest) =
            rw (e, entries) (ap (Option.map (λ rest. map (λ j. entry j i) js ++ rest)) f) in
          (js, (rest, (e, (f, cc))))
    ]
  ]

entries-hits :
    (v n : ℕ) (pre ws : List ℕ) (ps : List (List ℕ)) (s es : List ℕ)
    → length ws ≡ length ps
    → length pre + length ps ≤ 65536
    → entries n (length pre) ps s ≡ some es
    → has v (map (λ e. get_or (pre ++ ws) (e % 65536) 0) es) ≡ hits v ps ws s
entries-hits v n pre [] [] s [] h b e = refl
entries-hits v n pre [] [] s (x ∷ es) h b e = absurd (unfold entries in cc)
entries-hits v n pre (w ∷ ws) [] s es h b e = absurd (omega (arith, h))
entries-hits v n pre [] (p ∷ ps) s es h b e = absurd (omega (arith, h))
entries-hits v n pre (w ∷ ws) (p ∷ ps) s es h b e =
    let (js, (rest, (occur, (more, parts)))) = entries_parts n (length pre) p ps s es e in
    let f : ℕ → ℕ = λ e. get_or (pre ++ (w ∷ ws)) (e % 65536) 0 in
    let l = length-append pre (w ∷ []) in
    let at : (j : ℕ) → f (entry j (length pre)) ≡ w = λ j.
      ap (λ k. get_or (pre ++ (w ∷ ws)) k 0) (entry_index j (length pre) (omega (arith, b)))
      ∙ get_or-append (length pre) pre w ws refl in
    let ih =
      entries-hits v n (pre ++ (w ∷ [])) ws ps s rest (omega (arith, h)) (omega (arith, b, l))
        (ap (λ k. entries n k ps s) (omega (arith, l)) ∙ more) in
    ap (λ t. has v (map f t)) parts
    ∙ ap (has v) (map-append v f (map (λ j. entry j (length pre)) js) rest)
    ∙ has-append v (map f (map (λ j. entry j (length pre)) js)) (map f rest)
    ∙ ap₂ (λ a b. a || b)
        (has-same v f w (λ j. entry j (length pre)) js at
          ∙ ap (λ b. b && (w == v)) (occurrences-contains n p s js occur))
        (ap (λ t. has v (map (λ e. get_or t (e % 65536) 0) rest))
            (sym (append_assoc pre (w ∷ []) ws))
          ∙ ih)

-- The values that `Match` of the group returns.
pub has-substr_match :
    (v n : ℕ) (s vs : List ℕ) (g : SubstrMatcherGroup)
    → length g.values ≡ length g.patterns
    → length g.patterns ≤ 65536
    → substr_match n s g ≡ some vs
    → has v vs ≡ hits v g.patterns g.values s
unfolding substr_match
has-substr_match v n s vs g h b e =
    let values : List ℕ → List ℕ =
      λ es. map (λ e. get_or g.values (e % 65536) 0) (sort_entries es) in
    elim (Option-cases (entries n 0 g.patterns s)) [
      | inl f ↦ let k : none ≡ some vs = sym (ap (Option.map values) f) ∙ e in absurd (cc)
      | inr (es, f) ↦
          let k : some (values es) ≡ some vs = sym (ap (Option.map values) f) ∙ e in
          let out : vs ≡ values es = cc in
          ap (has v) out
          ∙ has-sort_entries v (λ e. get_or g.values (e % 65536) 0) es
          ∙ entries-hits v n [] g.values g.patterns s es h (omega (arith, b)) f
    ]

pub hits-add_matcher :
    (v w : ℕ) (p : List ℕ) (ps : List (List ℕ)) (ws s : List ℕ)
    → length ws ≡ length ps
    → hits v (ps ++ (p ∷ [])) (ws ++ (w ∷ [])) s ≡ ((contains p s && (w == v)) || hits v ps ws s)
hits-add_matcher v w p [] [] s h = refl
hits-add_matcher v w p [] (u ∷ ws) s h = absurd (omega (arith, h))
hits-add_matcher v w p (q ∷ ps) [] s h = absurd (omega (arith, h))
hits-add_matcher v w p (q ∷ ps) (u ∷ ws) s h =
    rw (hits-add_matcher v w p ps ws s (omega (arith, h)))
      (or_swap (contains q s && (u == v)) (contains p s && (w == v)) (hits v ps ws s))
