-- ===== src/Strmatcher/Linear/Values.antt =====
-- The linear matchers of lists of matchers: which values `Match` returns.
use mathlib.Core.Option
use mathlib.Core.Option.{Option}
use xray_core_python.Prelude.{
  ℕ, suc, ◌+◌, ◌≤◌, ◌≡◌, refl, sym, ap, ◌∙◌, Bool, true, false, ◌&&◌, ◌||◌, some, List, [], ◌∷◌,
  ◌++◌, length, length-append, contains, ◌==◌, arith, Option-cases, inl, inr, is_some, or_false,
  or_rotate, or_1, or_2, or_3, or_4,
}
use xray_core_python.Strmatcher.{
  Matcher, full, domain, substr, regex, matches, new_domain_group, labels, domain_match, full_match,
  simple_match,
}
use xray_core_python.Strmatcher.Trie.{any_label_new}
use xray_core_python.Strmatcher.Substr.{substr_match, no_empty, substr_match-no_empty}
use xray_core_python.Strmatcher.Linear.{
  LinearValueMatcher, new_linear_value_matcher, add_matcher, match_values,
}
use xray_core_python.Strmatcher.Linear.MatchAny.{is_proper}
use xray_core_python.Strmatcher.Linear.AddAll.{all_proper, add_all}
use xray_core_python.Strmatcher.Linear.Has.{
  has, has-append, has-domain_any_label, has-full_match, has-domain_match, has-simple_match,
}
use xray_core_python.Strmatcher.Linear.Keywords.{hits, hits-add_matcher, has-substr_match}

-- Whether a value belongs to a matcher that matches.
abbrev pub any_value : ℕ → List ℕ → List (Matcher × ℕ) → Bool
any_value v s [] = false
any_value v s ((m, w) ∷ ms) = let rest = any_value v s ms in (matches m s && (w == v)) || rest

-- A keyword that is not empty.
abbrev pub has_pattern : Matcher → Bool
has_pattern (substr []) = false
has_pattern m = true

abbrev pub all_patterns : List (Matcher × ℕ) → Bool
all_patterns [] = true
all_patterns ((m, value) ∷ ms) = let rest = all_patterns ms in has_pattern m && rest

-- The values that the four groups return.
returned : ℕ → List ℕ → LinearValueMatcher → Bool
returned v s g =
    has v (full_match s g.fulls)
    || (has v (domain_match s g.domains)
        || (hits v g.substrs.patterns g.substrs.values s || has v (simple_match s g.regexes)))

-- What is kept of the group of keywords: a value for each, and none empty but at the start.
record Keywords (n : ℕ) (g : LinearValueMatcher) : Type 0 where
  paired : length g.substrs.values ≡ length g.substrs.patterns
  bounded : length g.substrs.patterns ≤ n
  filled : no_empty g.substrs.patterns ≡ true

no_empty-snoc :
    (ps : List (List ℕ)) (c : ℕ) (p : List ℕ)
    → no_empty ps ≡ true
    → no_empty (ps ++ ((c ∷ p) ∷ [])) ≡ true
no_empty-snoc [] c p h = refl
no_empty-snoc ([] ∷ ps) c p h = absurd (cc)
no_empty-snoc ((d ∷ q) ∷ ps) c p h = no_empty-snoc ps c p h

add-Keywords :
    (m : Matcher) (v n : ℕ) (g : LinearValueMatcher)
    → has_pattern m ≡ true
    → Keywords n g
    → Keywords (suc n) (add_matcher m v g)
unfolding add_matcher
add-Keywords (full p) v n g h k = record {
  paired = k.paired;
  bounded = omega (arith, k.bounded);
  filled = k.filled;
}
add-Keywords (domain p) v n g h k = record {
  paired = k.paired;
  bounded = omega (arith, k.bounded);
  filled = k.filled;
}
add-Keywords (regex f) v n g h k = record {
  paired = k.paired;
  bounded = omega (arith, k.bounded);
  filled = k.filled;
}
add-Keywords (substr []) v n g h k = absurd (cc)
add-Keywords (substr (c ∷ p)) v n g h k =
    let l = length-append g.substrs.values (v ∷ []) in
    let r = length-append g.substrs.patterns ((c ∷ p) ∷ []) in
    record {
      paired = omega (arith, k.paired, l, r);
      bounded = omega (arith, k.bounded, r);
      filled = no_empty-snoc g.substrs.patterns c p k.filled;
    }

returned_nothing : (v : ℕ) (s : List ℕ) → returned v s new_linear_value_matcher ≡ false
unfolding returned
returned_nothing v s =
    unfold simple_match in
    rw (has-domain_any_label v s new_domain_group, any_label_new [] (has v) refl true (labels s))
      refl

returned-add_matcher :
    (m : Matcher) (v w n : ℕ) (s : List ℕ) (g : LinearValueMatcher)
    → is_proper m ≡ true
    → Keywords n g
    → returned v s (add_matcher m w g) ≡ ((matches m s && (w == v)) || returned v s g)
unfolding returned add_matcher
returned-add_matcher (full p) v w n s g h k = rw (has-full_match v w p s g.fulls) (
    or_1 (matches (full p) s && (w == v)) (has v (full_match s g.fulls)) (
      has v (domain_match s g.domains)
      || (hits v g.substrs.patterns g.substrs.values s || has v (simple_match s g.regexes))))
returned-add_matcher (domain p) v w n s g h k = rw (has-domain_match v w p s g.domains h) (
    or_2 (matches (domain p) s && (w == v)) (has v (full_match s g.fulls))
      (has v (domain_match s g.domains))
      (hits v g.substrs.patterns g.substrs.values s || has v (simple_match s g.regexes)))
returned-add_matcher (substr p) v w n s g h k =
    rw (hits-add_matcher v w p g.substrs.patterns g.substrs.values s k.paired) (
      unfold matches in
      or_3 (contains p s && (w == v)) (has v (full_match s g.fulls))
        (has v (domain_match s g.domains)) (hits v g.substrs.patterns g.substrs.values s)
        (has v (simple_match s g.regexes)))
returned-add_matcher (regex f) v w n s g h k = rw (has-simple_match v w (regex f) s g.regexes) (
    or_4 (matches (regex f) s && (w == v)) (has v (full_match s g.fulls))
      (has v (domain_match s g.domains)) (hits v g.substrs.patterns g.substrs.values s)
      (has v (simple_match s g.regexes)))

returned-add_all :
    (ms : List (Matcher × ℕ)) (v n : ℕ) (s : List ℕ) (g : LinearValueMatcher)
    → all_proper ms ≡ true
    → all_patterns ms ≡ true
    → Keywords n g
    → returned v s (add_all ms g) ≡ (any_value v s ms || returned v s g)
returned-add_all [] v n s g h p k = refl
returned-add_all ((m, w) ∷ ms) v n s g h p k =
    returned-add_all ms v (suc n) s (add_matcher m w g) (ground (arith, h)) (ground (arith, p))
      (add-Keywords m w n g (ground (arith, p)) k)
    ∙ rw (returned-add_matcher m v w n s g (ground (arith, h)) k)
        (or_rotate (any_value v s ms) (matches m s && (w == v)) (returned v s g))

add_all-Keywords :
    (ms : List (Matcher × ℕ)) (n : ℕ) (g : LinearValueMatcher)
    → all_patterns ms ≡ true
    → Keywords n g
    → Keywords (length ms + n) (add_all ms g)
add_all-Keywords [] n g p k = record {
  paired = k.paired;
  bounded = omega (arith, k.bounded);
  filled = k.filled;
}
add_all-Keywords ((m, w) ∷ ms) n g p k =
    let more =
      add_all-Keywords ms (suc n) (add_matcher m w g) (ground (arith, p))
        (add-Keywords m w n g (ground (arith, p)) k) in
    record { paired = more.paired; bounded = omega (arith, more.bounded); filled = more.filled }

match_values-returned :
    (v n : ℕ) (s : List ℕ) (g : LinearValueMatcher)
    → n ≤ 65536
    → Keywords n g
    → Option.map (has v) (match_values s g) ≡ some (returned v s g)
unfolding match_values returned
match_values-returned v n s g h k =
    let m = suc (length s) in
    let all : List ℕ → List ℕ = λ found.
      full_match s g.fulls ++ (domain_match s g.domains ++ (found ++ simple_match s g.regexes)) in
    elim (Option-cases (substr_match m s g.substrs)) [
      | inl e ↦
          let l = substr_match-no_empty m s g.substrs (omega arith) in
          let never : false ≡ true = sym (ap is_some e) ∙ l ∙ k.filled in absurd (cc)
      | inr (vs, e) ↦
          ap (λ o. Option.map (has v) (Option.map all o)) e
          ∙ ap some (
              has-append v (full_match s g.fulls)
                (domain_match s g.domains ++ (vs ++ simple_match s g.regexes))
              ∙ rw
                  (
                    has-append v (domain_match s g.domains) (vs ++ simple_match s g.regexes),
                    has-append v vs (simple_match s g.regexes),
                    has-substr_match v m s vs g.substrs k.paired (omega (arith, h, k.bounded)) e,
                  )
                  refl)
    ]

-- The values that `Match` returns are just those of the matchers that match, for matchers of which
-- no domain is empty or begins with a dot and no keyword is empty, at most 65,536 of them.
pub match_values-add_all :
    (ms : List (Matcher × ℕ)) (v : ℕ) (s : List ℕ)
    → all_proper ms ≡ true
    → all_patterns ms ≡ true
    → length ms ≤ 65536
    → Option.map (has v) (match_values s (add_all ms new_linear_value_matcher))
      ≡ some (any_value v s ms)
match_values-add_all ms v s h p b =
    let k : Keywords 0 new_linear_value_matcher = record {
      paired = refl;
      bounded = omega arith;
      filled = refl;
    } in
    match_values-returned v (length ms + 0) s (add_all ms new_linear_value_matcher)
      (omega (arith, b)) (add_all-Keywords ms 0 new_linear_value_matcher p k)
    ∙ ap some (
        returned-add_all ms v 0 s new_linear_value_matcher h p k
        ∙ rw (returned_nothing v s) (or_false (any_value v s ms)))
