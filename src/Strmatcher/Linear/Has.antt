-- ===== src/Strmatcher/Linear/Has.antt =====
-- Which values the groups of the linear matchers return.
use xray_core_python.Prelude.{
  ℕ, ◌≡◌, refl, sym, ap, ◌∙◌, Bool, true, false, ◌&&◌, ◌||◌, some, List, [], ◌∷◌, ◌++◌, reverse,
  reverse-append, flatten, length, ◌==◌, same_bytes, same_bytes→≡, arith, Bool-cases, Option-cases,
  inl, inr, or_assoc, or_comm, or_swap, or_false,
}
use xray_core_python.Strmatcher.{
  Matcher, full, domain, matches, DomainMatcherGroup, add_domain_matcher, domain_match,
  match_labels, node_value, children_of, find_child, FullMatcherGroup, add_full_matcher, full_match,
  SimpleMatcherGroup, simple_match, labels, any_label,
}
use xray_core_python.Strmatcher.Trie.{any_label-add_labels}
use xray_core_python.Strmatcher.Suffixes.{is_met-labels}
use xray_core_python.Strmatcher.Linear.MatchAny.{is_proper, true-not}

-- Whether a value is in a list.
abbrev pub has : ℕ → List ℕ → Bool
has v [] = false
has v (w ∷ ws) = let rest = has v ws in (w == v) || rest

pub has-append : (v : ℕ) (xs ys : List ℕ) → has v (xs ++ ys) ≡ (has v xs || has v ys)
has-append v [] ys = refl
has-append v (x ∷ xs) ys = rw (has-append v xs ys) (or_assoc (x == v) (has v xs) (has v ys))

has-snoc : (v w : ℕ) (xs : List ℕ) → has v (xs ++ (w ∷ [])) ≡ ((w == v) || has v xs)
has-snoc v w xs = has-append v xs (w ∷ []) ∙ rw (or_false (w == v)) (or_comm (has v xs) (w == v))

pub has-full_match :
    (v w : ℕ) (p s : List ℕ) (g : FullMatcherGroup)
    → has v (full_match s (add_full_matcher p w g))
      ≡ ((matches (full p) s && (w == v)) || has v (full_match s g))
unfolding matches
has-full_match v w p s g = elim (Bool-cases (same_bytes p s)) [
  | inl e ↦ rw (e) (
      has-snoc v w (full_match p g)
      ∙ ap (λ t. (w == v) || has v (full_match t g)) (same_bytes→≡ p s e))
  | inr e ↦ rw (e) refl
]

has-flatten-reverse :
    (v : ℕ) (xss : List (List ℕ)) → has v (flatten (reverse xss)) ≡ has v (flatten xss)
has-flatten-reverse v [] = refl
has-flatten-reverse v (xs ∷ xss) =
    ap (λ t. has v (flatten t)) (reverse-append (xs ∷ []) xss)
    ∙ has-flatten-snoc (reverse xss) xs
    ∙ rw (has-flatten-reverse v xss) (sym (has-append v xs (flatten xss)))
  where
    has-flatten-snoc :
        (yss : List (List ℕ)) (ys : List ℕ)
        → has v (flatten (yss ++ (ys ∷ []))) ≡ (has v ys || has v (flatten yss))
    has-flatten-snoc [] ys = has-append v ys []
    has-flatten-snoc (zs ∷ yss) ys =
        has-append v zs (flatten (yss ++ (ys ∷ [])))
        ∙ rw (has-flatten-snoc yss ys, has-append v zs (flatten yss))
            (or_swap (has v zs) (has v ys) (has v (flatten yss)))

has-none : (v : ℕ) (vs : List ℕ) → (length vs == 0) ≡ true → has v vs ≡ false
has-none v [] h = refl
has-none v (w ∷ vs) h = absurd (ground (arith, h))

any_label_found :
    (found : List ℕ → Bool) (l : List ℕ) (ls : List (List ℕ)) (g t : DomainMatcherGroup)
    → find_child l (children_of g) ≡ some t
    → any_label found (l ∷ ls) g ≡ (found (node_value t) || any_label found ls t)
unfolding any_label
any_label_found found l ls g t e = elim (Bool-cases (found (node_value t))) [
  | inl f ↦ rw (e, any_label, f) refl
  | inr f ↦ rw (e, any_label, f) refl
]

has-match_labels_found :
    (v : ℕ) (l : List ℕ) (ls : List (List ℕ)) (g t : DomainMatcherGroup)
    → find_child l (children_of g) ≡ some t
    → has v (flatten (match_labels (l ∷ ls) g))
      ≡ (has v (node_value t) || has v (flatten (match_labels ls t)))
unfolding match_labels
has-match_labels_found v l ls g t e = elim (Bool-cases (length (node_value t) == 0)) [
  | inl f ↦ rw (e, match_labels, f, has-none v (node_value t) f) refl
  | inr f ↦ rw (e, match_labels, f) (has-append v (node_value t) (flatten (match_labels ls t)))
]

has-match_labels :
    (v : ℕ) (ls : List (List ℕ)) (g : DomainMatcherGroup)
    → has v (flatten (match_labels ls g)) ≡ any_label (has v) ls g
has-match_labels v [] g = unfold match_labels in unfold any_label in refl
has-match_labels v (l ∷ ls) g = elim (Option-cases (find_child l (children_of g))) [
  | inl e ↦ unfold match_labels in unfold any_label in rw (e, match_labels, any_label) refl
  | inr (t, e) ↦
      has-match_labels_found v l ls g t e
      ∙ ap (λ b. has v (node_value t) || b) (has-match_labels v ls t)
      ∙ sym (any_label_found (has v) l ls g t e)
]

pub has-domain_any_label :
    (v : ℕ) (s : List ℕ) (g : DomainMatcherGroup)
    → has v (domain_match s g) ≡ any_label (has v) (labels s) g
unfolding domain_match
has-domain_any_label v s g =
    has-flatten-reverse v (match_labels (labels s) g) ∙ has-match_labels v (labels s) g

pub has-domain_match :
    (v w : ℕ) (p s : List ℕ) (g : DomainMatcherGroup)
    → is_proper (domain p) ≡ true
    → has v (domain_match s (add_domain_matcher p w g))
      ≡ ((matches (domain p) s && (w == v)) || has v (domain_match s g))
unfolding add_domain_matcher
has-domain_match v w [] s g h = absurd (cc)
has-domain_match v w (c ∷ p) s g h =
    has-domain_any_label v s (add_domain_matcher (c ∷ p) w g)
    ∙ any_label-add_labels [] (has v) refl (w == v) (λ vs. vs ++ (w ∷ [])) (labels (c ∷ p))
        (labels s) g (λ vs. has-snoc v w vs)
    ∙ rw (is_met-labels c p s (true-not (c == b'.') h), has-domain_any_label v s g) refl

pub has-simple_match :
    (v w : ℕ) (m : Matcher) (s : List ℕ) (g : SimpleMatcherGroup)
    → has v (simple_match s (g ++ ((m, w) ∷ [])))
      ≡ ((matches m s && (w == v)) || has v (simple_match s g))
unfolding simple_match
has-simple_match v w m s [] = elim (Bool-cases (matches m s)) [
  | inl e ↦ rw (e) refl
  | inr e ↦ rw (e) refl
]
has-simple_match v w m s ((k, u) ∷ g) = elim (Bool-cases (matches k s)) [
  | inl e ↦
      rw (e, has-simple_match v w m s g)
        (or_swap (u == v) (matches m s && (w == v)) (has v (simple_match s g)))
  | inr e ↦ rw (e, has-simple_match v w m s g) refl
]
