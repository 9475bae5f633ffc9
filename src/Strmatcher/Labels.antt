-- ===== src/Strmatcher/Labels.antt =====
-- The labels of a text, and the texts that begin with them from the back.
use xray_core_python.Prelude.{
  ℕ, ◌≡◌, ◌≢◌, refl, sym, ap, subst, ◌∙◌, Bool, true, false, List, [], ◌∷◌, ◌++◌, append_assoc,
  ◌==◌, if◌then◌else◌, length, length-append, get_or, get_or-append, arith, Bool-cases, inl, inr,
  same_bytes, same_bytes_refl, same_bytes→≡,
}
use xray_core_python.Strmatcher.{labels_from, labels_back}
use xray_core_python.Strmatcher.Trie.{path_prefix}

-- Bytes backwards that begin with others, up to a dot or the end.
abbrev pub meets : List ℕ → List ℕ → Bool
meets [] [] = true
meets [] (c ∷ s) = c == b'.'
meets (c ∷ p) [] = false
meets (c ∷ p) (d ∷ s) = let rest = meets p s in if c == d then rest else false

-- Bytes backwards that do not end with a dot.
abbrev pub IsPlain : List ℕ → Type 0
IsPlain [] = Unit
IsPlain (c ∷ []) = (c == b'.') ≡ false
IsPlain (c ∷ (d ∷ s)) = IsPlain (d ∷ s)

labels_step :
    (label : List ℕ) (c : ℕ) (s : List ℕ)
    → labels_from label (c ∷ s)
      ≡ (if c == b'.' then label ∷ labels_back s else labels_from (c ∷ label) s)
unfolding labels_from
labels_step label c [] = refl
labels_step label c (d ∷ s) = refl

pub record Headed (label : List ℕ) (ls : List (List ℕ)) : Type 0 where
  pub front : List ℕ
  pub rest : List (List ℕ)
  pub shape : ls ≡ (front ++ label) ∷ rest

pub labels_from-Headed : (label s : List ℕ) → Headed label (labels_from label s)
labels_from-Headed label [] = unfold labels_from in record { front = []; rest = []; shape = refl }
labels_from-Headed label (c ∷ s) = elim (Bool-cases (c == b'.')) [
  | inl e ↦ record { front = []; rest = labels_back s; shape = labels_step label c s ∙ rw (e) refl }
  | inr e ↦
      let h = labels_from-Headed (c ∷ label) s in
      record {
        front = h.front ++ (c ∷ []);
        rest = h.rest;
        shape =
            labels_step label c s
            ∙ rw (e) (h.shape ∙ ap (λ t. t ∷ h.rest) (sym (append_assoc h.front (c ∷ []) label)));
      }
]

not_same : (xs ys : List ℕ) → xs ≢ ys → same_bytes xs ys ≡ false
not_same xs ys h = elim (Bool-cases (same_bytes xs ys)) [
  | inl e ↦ absurd (h (same_bytes→≡ xs ys e))
  | inr e ↦ e
]

other_length : (xs ys : List ℕ) → length xs ≢ length ys → same_bytes xs ys ≡ false
other_length xs ys h = not_same xs ys (λ q. h (ap length q))

-- A label that goes on is not the label so far.
longer_right :
    (c : ℕ) (label s : List ℕ) (xs : List (List ℕ))
    → path_prefix (label ∷ xs) (labels_from (c ∷ label) s) ≡ false
longer_right c label s xs =
    let h = labels_from-Headed (c ∷ label) s in
    ap (path_prefix (label ∷ xs)) h.shape
    ∙ rw
        (other_length label (h.front ++ (c ∷ label))
          (λ e. omega (arith, e, length-append h.front (c ∷ label))))
        refl

longer_left :
    (c : ℕ) (label s : List ℕ) (xs : List (List ℕ))
    → path_prefix (labels_from (c ∷ label) s) (label ∷ xs) ≡ false
longer_left c label s xs =
    let h = labels_from-Headed (c ∷ label) s in
    ap (λ t. path_prefix t (label ∷ xs)) h.shape
    ∙ rw
        (other_length (h.front ++ (c ∷ label)) label
          (λ e. omega (arith, e, length-append h.front (c ∷ label))))
        refl

labels_apart :
    (c d : ℕ) (label r s : List ℕ)
    → (c == d) ≡ false
    → path_prefix (labels_from (c ∷ label) r) (labels_from (d ∷ label) s) ≡ false
labels_apart c d label r s e =
    let h = labels_from-Headed (c ∷ label) r in
    let k = labels_from-Headed (d ∷ label) s in
    let apart : same_bytes (h.front ++ (c ∷ label)) (k.front ++ (d ∷ label)) ≡ false =
      not_same (h.front ++ (c ∷ label)) (k.front ++ (d ∷ label)) (λ q.
        let n : length h.front ≡ length k.front = omega (
          arith,
          ap length q,
          length-append h.front (c ∷ label),
          length-append k.front (d ∷ label),
        ) in
        let same : c ≡ d =
          sym (get_or-append (length h.front) h.front c label refl)
          ∙ ap (λ t. get_or t (length h.front) 0) q
          ∙ get_or-append (length h.front) k.front d label (sym n) in
        ground (arith, same, e)) in
    ap (λ t. path_prefix t (labels_from (d ∷ label) s)) h.shape
    ∙ ap (path_prefix ((h.front ++ (c ∷ label)) ∷ h.rest)) k.shape
    ∙ rw (apart) refl

pub path_nothing : (c : ℕ) (s : List ℕ) → path_prefix (labels_back (c ∷ s)) [] ≡ false
path_nothing c s = let h = labels_from-Headed [] (c ∷ s) in ap (λ t. path_prefix t []) h.shape

rest-IsPlain : (c : ℕ) (p : List ℕ) → IsPlain (c ∷ p) → IsPlain p
rest-IsPlain c [] h = tt
rest-IsPlain c (d ∷ p) h = h

-- After two dots, labels begin anew.
after_dots :
    (c : ℕ) (p s : List ℕ)
    → IsPlain (c ∷ p)
    → (c == b'.') ≡ true
    → path_prefix (labels_from [] p) (labels_from [] s) ≡ meets p s
    → path_prefix (labels_back p) (labels_back s) ≡ meets p s
after_dots c [] s h e ih = absurd (cc)
after_dots c (x ∷ p) [] h e ih = path_nothing x p
after_dots c (x ∷ p) (y ∷ s) h e ih = ih

-- The labels of a plain text are met where the text is, up to a dot or the end.
pub labels_from-meets :
    (p s label : List ℕ)
    → IsPlain p
    → path_prefix (labels_from label p) (labels_from label s) ≡ meets p s
labels_from-meets [] [] label h = unfold labels_from in rw (same_bytes_refl label) refl
labels_from-meets [] (c ∷ s) label h =
    unfold labels_from in
    elim (Bool-cases (c == b'.')) [
      | inl e ↦
          ap (path_prefix (label ∷ [])) (labels_step label c s) ∙ rw (e, same_bytes_refl label) refl
      | inr e ↦
          ap (path_prefix (label ∷ [])) (labels_step label c s) ∙ rw (e) (longer_right c label s [])
    ]
labels_from-meets (c ∷ p) [] label h =
    unfold labels_from in
    elim (Bool-cases (c == b'.')) [
      | inl e ↦ ap (λ t. path_prefix t (label ∷ [])) (labels_step label c p) ∙ rw (e) (ends p e h)
      | inr e ↦
          ap (λ t. path_prefix t (label ∷ [])) (labels_step label c p)
          ∙ rw (e) (longer_left c label p [])
    ]
  where
    ends :
        (p : List ℕ)
        → (c == b'.') ≡ true
        → IsPlain (c ∷ p)
        → path_prefix (label ∷ labels_back p) (label ∷ []) ≡ false
    ends [] e f = absurd (cc)
    ends (d ∷ p) e f = rw (path_nothing d p, same_bytes_refl label) refl
labels_from-meets (c ∷ p) (d ∷ s) label h =
    ap (λ t. path_prefix t (labels_from label (d ∷ s))) (labels_step label c p)
    ∙ ap (path_prefix (if c == b'.' then label ∷ labels_back p else labels_from (c ∷ label) p))
        (labels_step label d s)
    ∙ elim (Bool-cases (c == b'.')) [
      | inl e ↦ elim (Bool-cases (d == b'.')) [
        | inl f ↦
            let g : (c == d) ≡ true = ground (arith, e, f) in
            rw (e, f, same_bytes_refl label, g)
              (after_dots c p s h e (labels_from-meets p s [] (rest-IsPlain c p h)))
        | inr f ↦
            let g : (c == d) ≡ false = ground (arith, e, f) in
            rw (e, f, longer_right d label s (labels_back p), g) refl
      ]
      | inr e ↦ elim (Bool-cases (d == b'.')) [
        | inl f ↦
            let g : (c == d) ≡ false = ground (arith, e, f) in
            rw (e, f, longer_left c label p (labels_back s), g) refl
        | inr f ↦
            rw (e, f)
              (elim (Bool-cases (c == d)) [
                | inl g ↦ rw (g) (
                    subst
                      (λ x.
                        path_prefix (labels_from (c ∷ label) p) (labels_from (x ∷ label) s)
                        ≡ meets p s)
                      (ground (arith, g)) (labels_from-meets p s (c ∷ label) (rest-IsPlain c p h)))
                | inr g ↦ rw (g) (labels_apart c d label p s g)
              ])
      ]
    ]
