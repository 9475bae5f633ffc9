-- ===== src/Strmatcher/Linear/MatchAny.antt =====
-- The linear matchers against the matchers that were added, one by one: whether any matches.
use xray_core_python.Prelude.{
  ℕ, ◌≡◌, refl, ◌∙◌, Bool, true, false, ◌&&◌, ◌||◌, not, List, [], ◌∷◌, ◌++◌, if◌then◌else◌,
  length-append, ◌==◌, same_bytes, contains, arith, if_or, or_2, or_3, or_4,
}
use xray_core_python.Strmatcher.{
  Matcher, full, domain, substr, regex, matches, DomainMatcherGroup, domain_match_any,
  add_domain_matcher, has_values, full_match_any, SimpleMatcherGroup, simple_match_any,
  DomainMatcherSet, add_to_set, set_match_any, labels, any_label,
}
use xray_core_python.Strmatcher.Trie.{any_label-add_labels}
use xray_core_python.Strmatcher.Suffixes.{is_met-labels}
use xray_core_python.Strmatcher.Substr.{
  SubstrMatcherGroup, add_substr_matcher, substr_match_any, contains_any,
}
use xray_core_python.Strmatcher.Linear.{
  LinearValueMatcher, add_matcher, match_any, LinearAnyMatcher, add_any, any_match_any, in_full_set,
  in_simple_set,
}

-- A matcher that the tries read as it is meant: a domain is not empty and does not begin with a dot.
abbrev pub is_proper : Matcher → Bool
is_proper (domain []) = false
is_proper (domain (c ∷ p)) = not (c == b'.')
is_proper m = true

pub true-not : (b : Bool) → not b ≡ true → b ≡ false
true-not b h = ground arith

or_back : (a b c : Bool) → (if b then true else (a || c)) ≡ (a || (if b then true else c))
or_back a b c = ground arith

and_true : (a b : Bool) → ((a && true) || b) ≡ (a || b)
and_true a b = ground arith

if_or_1 : (m a r : Bool) → ((if m then true else a) || r) ≡ (m || (a || r))
if_or_1 m a r = ground arith

if_or4 :
    (a b c d : Bool)
    → (if a then true else if b then true else if c then true else d) ≡ (a || (b || (c || d)))
if_or4 a b c d = ground arith

contains_any-add_matcher :
    (ps : List (List ℕ)) (p s : List ℕ)
    → contains_any (ps ++ (p ∷ [])) s ≡ (contains p s || contains_any ps s)
contains_any-add_matcher [] p s = if_or (contains p s) false
contains_any-add_matcher (q ∷ ps) p s =
    rw (contains_any-add_matcher ps p s) (or_back (contains p s) (contains q s) (contains_any ps s))

domain_match_any-add_matcher :
    (p : List ℕ) (v : ℕ) (s : List ℕ) (g : DomainMatcherGroup)
    → is_proper (domain p) ≡ true
    → domain_match_any s (add_domain_matcher p v g) ≡ (matches (domain p) s || domain_match_any s g)
unfolding domain_match_any add_domain_matcher
domain_match_any-add_matcher [] v s g h = absurd (cc)
domain_match_any-add_matcher (c ∷ p) v s g h =
    any_label-add_labels [] has_values refl true (λ vs. vs ++ (v ∷ [])) (labels (c ∷ p)) (labels s)
      g (λ a. ground (arith, length-append a (v ∷ [])))
    ∙ rw (is_met-labels c p s (true-not (c == b'.') h))
        (and_true (matches (domain (c ∷ p)) s) (any_label has_values (labels s) g))

set_match_any-add_matcher :
    (p s : List ℕ) (g : DomainMatcherSet)
    → is_proper (domain p) ≡ true
    → set_match_any s (add_to_set p g) ≡ (matches (domain p) s || set_match_any s g)
unfolding set_match_any add_to_set
set_match_any-add_matcher [] s g h = absurd (cc)
set_match_any-add_matcher (c ∷ p) s g h =
    any_label-add_labels false (λ matched. matched) refl true (λ matched. true) (labels (c ∷ p))
      (labels s) g (λ a. refl)
    ∙ rw (is_met-labels c p s (true-not (c == b'.') h))
        (and_true (matches (domain (c ∷ p)) s) (any_label (λ matched. matched) (labels s) g))

pub match_any_or :
    (s : List ℕ) (g : LinearValueMatcher)
    → match_any s g ≡ (
        full_match_any s g.fulls
        || (domain_match_any s g.domains
            || (substr_match_any s g.substrs || simple_match_any s g.regexes)))
unfolding match_any
match_any_or s g =
    if_or4 (full_match_any s g.fulls) (domain_match_any s g.domains) (substr_match_any s g.substrs)
      (simple_match_any s g.regexes)

substr_match_any-add_matcher :
    (g : SubstrMatcherGroup) (p : List ℕ) (v : ℕ) (s : List ℕ)
    → substr_match_any s (add_substr_matcher p v g) ≡ (matches (substr p) s || substr_match_any s g)
unfolding substr_match_any matches
substr_match_any-add_matcher g p v s = contains_any-add_matcher g.patterns p s

simple_match_any-add_matcher :
    (g : SimpleMatcherGroup) (m : Matcher) (v : ℕ) (s : List ℕ)
    → simple_match_any s (g ++ ((m, v) ∷ [])) ≡ (matches m s || simple_match_any s g)
unfolding simple_match_any
simple_match_any-add_matcher [] m v s = if_or (matches m s) false
simple_match_any-add_matcher ((k, w) ∷ g) m v s =
    rw (simple_match_any-add_matcher g m v s)
      (or_back (matches m s) (matches k s) (simple_match_any s g))

in_simple_set-add_matcher :
    (ms : List Matcher) (m : Matcher) (s : List ℕ)
    → in_simple_set s (ms ++ (m ∷ [])) ≡ (matches m s || in_simple_set s ms)
unfolding in_simple_set
in_simple_set-add_matcher [] m s = if_or (matches m s) false
in_simple_set-add_matcher (k ∷ ms) m s =
    rw (in_simple_set-add_matcher ms m s) (or_back (matches m s) (matches k s) (in_simple_set s ms))

pub match_any-add_matcher :
    (m : Matcher) (v : ℕ) (s : List ℕ) (g : LinearValueMatcher)
    → is_proper m ≡ true
    → match_any s (add_matcher m v g) ≡ (matches m s || match_any s g)
unfolding add_matcher
match_any-add_matcher (full p) v s g h =
    match_any_or s (add_matcher (full p) v g)
    ∙ rw (match_any_or s g) (
        unfold matches in
        if_or_1 (same_bytes p s) (full_match_any s g.fulls) (
          domain_match_any s g.domains
          || (substr_match_any s g.substrs || simple_match_any s g.regexes)))
match_any-add_matcher (domain p) v s g h =
    match_any_or s (add_matcher (domain p) v g)
    ∙ rw (domain_match_any-add_matcher p v s g.domains h, match_any_or s g)
        (or_2 (matches (domain p) s) (full_match_any s g.fulls) (domain_match_any s g.domains)
          (substr_match_any s g.substrs || simple_match_any s g.regexes))
match_any-add_matcher (substr p) v s g h =
    match_any_or s (add_matcher (substr p) v g)
    ∙ rw (substr_match_any-add_matcher g.substrs p v s, match_any_or s g)
        (or_3 (matches (substr p) s) (full_match_any s g.fulls) (domain_match_any s g.domains)
          (substr_match_any s g.substrs) (simple_match_any s g.regexes))
match_any-add_matcher (regex f) v s g h =
    match_any_or s (add_matcher (regex f) v g)
    ∙ rw (simple_match_any-add_matcher g.regexes (regex f) v s, match_any_or s g)
        (or_4 (matches (regex f) s) (full_match_any s g.fulls) (domain_match_any s g.domains)
          (substr_match_any s g.substrs) (simple_match_any s g.regexes))

pub any_match_any_or :
    (s : List ℕ) (g : LinearAnyMatcher)
    → any_match_any s g ≡ (
        in_full_set s g.full_set
        || (set_match_any s g.domain_set
            || (contains_any g.substr_set s || in_simple_set s g.simple_set)))
unfolding any_match_any
any_match_any_or s g =
    if_or4 (in_full_set s g.full_set) (set_match_any s g.domain_set) (contains_any g.substr_set s)
      (in_simple_set s g.simple_set)

pub any_match_any-add_matcher :
    (m : Matcher) (s : List ℕ) (g : LinearAnyMatcher)
    → is_proper m ≡ true
    → any_match_any s (add_any m g) ≡ (matches m s || any_match_any s g)
unfolding add_any
any_match_any-add_matcher (full p) s g h =
    any_match_any_or s (add_any (full p) g)
    ∙ rw (any_match_any_or s g) (
        unfold matches in
        if_or_1 (same_bytes p s) (in_full_set s g.full_set) (
          set_match_any s g.domain_set
          || (contains_any g.substr_set s || in_simple_set s g.simple_set)))
any_match_any-add_matcher (domain p) s g h =
    any_match_any_or s (add_any (domain p) g)
    ∙ rw (set_match_any-add_matcher p s g.domain_set h, any_match_any_or s g)
        (or_2 (matches (domain p) s) (in_full_set s g.full_set) (set_match_any s g.domain_set)
          (contains_any g.substr_set s || in_simple_set s g.simple_set))
any_match_any-add_matcher (substr p) s g h =
    any_match_any_or s (add_any (substr p) g)
    ∙ rw (contains_any-add_matcher g.substr_set p s, any_match_any_or s g)
        (unfold matches in
          or_3 (contains p s) (in_full_set s g.full_set) (set_match_any s g.domain_set)
            (contains_any g.substr_set s) (in_simple_set s g.simple_set))
any_match_any-add_matcher (regex f) s g h =
    any_match_any_or s (add_any (regex f) g)
    ∙ rw (in_simple_set-add_matcher g.simple_set (regex f) s, any_match_any_or s g)
        (or_4 (matches (regex f) s) (in_full_set s g.full_set) (set_match_any s g.domain_set)
          (contains_any g.substr_set s) (in_simple_set s g.simple_set))
