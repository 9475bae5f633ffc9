-- ===== src/Strmatcher/Linear/AddAll.antt =====
-- The linear matchers of lists of matchers.
use xray_core_python.Prelude.{
  ℕ, ◌≡◌, refl, ◌∙◌, Bool, true, false, ◌&&◌, ◌||◌, List, [], ◌∷◌, arith, or_rotate, or_false,
}
use xray_core_python.Strmatcher.{
  Matcher, matches, domain_match_any, has_values, simple_match_any, set_match_any, labels,
}
use xray_core_python.Strmatcher.Trie.{any_label_new}
use xray_core_python.Strmatcher.Substr.{substr_match_any}
use xray_core_python.Strmatcher.Linear.MatchAny.{
  is_proper, match_any-add_matcher, match_any_or, any_match_any-add_matcher, any_match_any_or,
}
use xray_core_python.Strmatcher.Linear.{
  LinearValueMatcher, new_linear_value_matcher, add_matcher, match_any, LinearAnyMatcher,
  new_linear_any_matcher, add_any, any_match_any, in_simple_set,
}

abbrev pub all_proper : List (Matcher × ℕ) → Bool
all_proper [] = true
all_proper ((m, value) ∷ ms) = let rest = all_proper ms in is_proper m && rest

abbrev pub any_matches : List ℕ → List (Matcher × ℕ) → Bool
any_matches s [] = false
any_matches s ((m, value) ∷ ms) = let rest = any_matches s ms in matches m s || rest

-- Matchers added in their order.
abbrev pub add_all : List (Matcher × ℕ) → LinearValueMatcher → LinearValueMatcher
add_all [] g = g
add_all ((m, value) ∷ ms) g = add_all ms (add_matcher m value g)

abbrev pub add_all_any : List (Matcher × ℕ) → LinearAnyMatcher → LinearAnyMatcher
add_all_any [] s = s
add_all_any ((m, value) ∷ ms) s = add_all_any ms (add_any m s)

match_any-add_all_lem :
    (ms : List (Matcher × ℕ)) (s : List ℕ) (g : LinearValueMatcher)
    → all_proper ms ≡ true
    → match_any s (add_all ms g) ≡ (any_matches s ms || match_any s g)
match_any-add_all_lem [] s g h = refl
match_any-add_all_lem ((m, v) ∷ ms) s g h =
    match_any-add_all_lem ms s (add_matcher m v g) (ground (arith, h))
    ∙ rw (match_any-add_matcher m v s g (ground (arith, h)))
        (or_rotate (any_matches s ms) (matches m s) (match_any s g))

any_match_any-add_all_lem :
    (ms : List (Matcher × ℕ)) (s : List ℕ) (g : LinearAnyMatcher)
    → all_proper ms ≡ true
    → any_match_any s (add_all_any ms g) ≡ (any_matches s ms || any_match_any s g)
any_match_any-add_all_lem [] s g h = refl
any_match_any-add_all_lem ((m, v) ∷ ms) s g h =
    any_match_any-add_all_lem ms s (add_any m g) (ground (arith, h))
    ∙ rw (any_match_any-add_matcher m s g (ground (arith, h)))
        (or_rotate (any_matches s ms) (matches m s) (any_match_any s g))

nothing_matches : (s : List ℕ) → match_any s new_linear_value_matcher ≡ false
nothing_matches s =
    match_any_or s new_linear_value_matcher
    ∙ unfold domain_match_any in
      unfold substr_match_any in
      unfold simple_match_any in rw (any_label_new [] has_values refl true (labels s)) refl

nothing_any : (s : List ℕ) → any_match_any s new_linear_any_matcher ≡ false
nothing_any s =
    any_match_any_or s new_linear_any_matcher
    ∙ unfold set_match_any in
      unfold in_simple_set in
      rw (any_label_new false (λ matched. matched) refl true (labels s)) refl

-- The sets and the groups say alike whether a text is matched, as the matchers say one by one:
-- for every text and every list of matchers in which no domain is empty or begins with a dot.
pub match_any-add_all :
    (ms : List (Matcher × ℕ)) (s : List ℕ)
    → all_proper ms ≡ true
    → (match_any s (add_all ms new_linear_value_matcher) ≡ any_matches s ms)
      × (any_match_any s (add_all_any ms new_linear_any_matcher) ≡ any_matches s ms)
match_any-add_all ms s h = (
  match_any-add_all_lem ms s new_linear_value_matcher h
      ∙ rw (nothing_matches s) (or_false (any_matches s ms)),
  any_match_any-add_all_lem ms s new_linear_any_matcher h
      ∙ rw (nothing_any s) (or_false (any_matches s ms)),
)
