-- ===== src/Strmatcher/Suffixes.antt =====
-- A path of labels in a trie is a domain and those above it.
use xray_core_python.Prelude.{
  ℕ, ◌-◌, ◌≡◌, refl, sym, ap, ◌∙◌, true, false, List, [], ◌∷◌, ◌++◌, append_assoc, reverse,
  reverse-append, reverse-reverse, ◌==◌, ==_refl, length, length-append, get_or-append, arith,
  Bool-cases, inl, inr, has_prefix, has_suffix, has_suffix-reverse, has_suffix→append,
  has_suffix-append,
}
use xray_core_python.Strmatcher.{domain, matches, labels_from, labels_back, labels}
use xray_core_python.Strmatcher.Labels.{
  meets, IsPlain, labels_from-Headed, path_nothing, labels_from-meets,
}
use xray_core_python.Strmatcher.Trie.{path_prefix, is_met}

-- What meets a text backwards is a suffix of it after a dot or after nothing.
meets-append : (p r : List ℕ) → meets p (p ++ r) ≡ meets [] r
meets-append [] r = refl
meets-append (c ∷ p) r = rw (==_refl c) (meets-append p r)

meets→has_prefix : (p s : List ℕ) → meets p s ≡ true → has_prefix p s ≡ true
meets→has_prefix [] s h = refl
meets→has_prefix (c ∷ p) [] h = h
meets→has_prefix (c ∷ p) (d ∷ s) h = elim (Bool-cases (c == d)) [
  | inl e ↦ rw (e) (meets→has_prefix p s (ground (arith, h, e)))
  | inr e ↦ absurd (ground (arith, h, e))
]

matches_whole : (p : List ℕ) → matches (domain p) p ≡ true
unfolding matches
matches_whole p = rw (has_suffix-append [] p, ==_refl (length p)) refl

matches_longer : (q p : List ℕ) (c : ℕ) → matches (domain p) (q ++ (c ∷ p)) ≡ (c == b'.')
unfolding matches
matches_longer q p c =
    let l = length-append q (c ∷ p) in
    let suffix : has_suffix p (q ++ (c ∷ p)) ≡ true =
      ap (has_suffix p) (sym (append_assoc q (c ∷ []) p)) ∙ has_suffix-append (q ++ (c ∷ [])) p in
    let longer : (length (q ++ (c ∷ p)) == length p) ≡ false = ground (arith, l) in
    let at : length (q ++ (c ∷ p)) - length p - 1 ≡ length q = omega (arith, l) in
    rw (suffix, longer, at, get_or-append (length q) q c p refl) refl

matches-append : (p r : List ℕ) → matches (domain p) (reverse r ++ p) ≡ meets [] r
matches-append p [] = matches_whole p
matches-append p (c ∷ r) =
    ap (λ t. matches (domain p) (t ++ p)) (reverse-append (c ∷ []) r)
    ∙ ap (matches (domain p)) (append_assoc (reverse r) (c ∷ []) p)
    ∙ matches_longer (reverse r) p c

meets-reverse : (p s : List ℕ) → meets (reverse p) (reverse s) ≡ matches (domain p) s
meets-reverse p s = elim (Bool-cases (has_suffix p s)) [
  | inl e ↦
      let (q, f) = has_suffix→append p s e in
      let g : s ≡ reverse (reverse q) ++ p = f ∙ ap (λ t. t ++ p) (sym (reverse-reverse q)) in
      ap (meets (reverse p)) (ap reverse f ∙ reverse-append q p)
      ∙ meets-append (reverse p) (reverse q)
      ∙ sym (matches-append p (reverse q))
      ∙ ap (matches (domain p)) (sym g)
  | inr e ↦
      let f = meets→has_prefix (reverse p) (reverse s) in
      let g = has_suffix-reverse p s in
      let h : meets (reverse p) (reverse s) ≡ false = ground (arith, f, g, e) in
      h ∙ sym (unfold matches in rw (e) refl)
]

is_met_path :
    (label xs : List ℕ) (ls : List (List ℕ))
    → is_met (labels_from label xs) ls ≡ path_prefix (labels_from label xs) ls
is_met_path label xs ls =
    let h = labels_from-Headed label xs in
    ap (λ t. is_met t ls) h.shape ∙ sym (ap (λ t. path_prefix t ls) h.shape)

is_met-meets :
    (c : ℕ) (p s : List ℕ)
    → IsPlain (c ∷ p)
    → is_met (labels_back (c ∷ p)) (labels_back s) ≡ meets (c ∷ p) s
is_met-meets c p [] h = is_met_path [] (c ∷ p) [] ∙ path_nothing c p
is_met-meets c p (d ∷ s) h =
    is_met_path [] (c ∷ p) (labels_back (d ∷ s)) ∙ labels_from-meets (c ∷ p) (d ∷ s) [] h

IsPlain-last : (xs : List ℕ) (c : ℕ) → (c == b'.') ≡ false → IsPlain (xs ++ (c ∷ []))
IsPlain-last [] c h = h
IsPlain-last (x ∷ []) c h = h
IsPlain-last (x ∷ (y ∷ xs)) c h = IsPlain-last (y ∷ xs) c h

last_met :
    (xs : List ℕ) (c : ℕ) (s : List ℕ)
    → (c == b'.') ≡ false
    → is_met (labels_back (xs ++ (c ∷ []))) (labels_back s) ≡ meets (xs ++ (c ∷ [])) s
last_met [] c s h = is_met-meets c [] s h
last_met (x ∷ xs) c s h = is_met-meets x (xs ++ (c ∷ [])) s (IsPlain-last (x ∷ xs) c h)

-- A domain pattern that does not begin with a dot is met where it matches.
pub is_met-labels :
    (c : ℕ) (p s : List ℕ)
    → (c == b'.') ≡ false
    → is_met (labels (c ∷ p)) (labels s) ≡ matches (domain (c ∷ p)) s
is_met-labels c p s h =
    ap (λ t. is_met (labels_back t) (labels s)) (reverse-append (c ∷ []) p)
    ∙ last_met (reverse p) c (reverse s) h
    ∙ ap (λ t. meets t (reverse s)) (sym (reverse-append (c ∷ []) p))
    ∙ meets-reverse (c ∷ p) s
