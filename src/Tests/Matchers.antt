-- ===== src/Tests/Matchers.antt =====
-- Witnesses of the theorems of Strmatcher.
use mathlib.Core.Option
use mathlib.Core.Option.{Option}
use xray_core_python.Prelude.{ℕ, ◌≡◌, refl, true, false, some, List, [], ◌∷◌, arith, is_some}
use xray_core_python.Strmatcher.{Matcher, full, domain, substr, regex, matches}
use xray_core_python.Strmatcher.Substr.{SubstrMatcherGroup, substr_match, substr_match-no_empty}
use xray_core_python.Strmatcher.Linear.{
  new_linear_value_matcher, new_linear_any_matcher, match_any, any_match_any, match_values,
}
use xray_core_python.Strmatcher.Linear.AddAll.{add_all, add_all_any, match_any-add_all}
use xray_core_python.Strmatcher.Linear.Has.{has}
use xray_core_python.Strmatcher.Linear.Values.{match_values-add_all}

-- `b.c`
abbrev site : List ℕ
site = b'b' ∷ b'.' ∷ b'c' ∷ []

-- `a.b.c`
abbrev sub_site : List ℕ
sub_site = b'a' ∷ b'.' ∷ site

abbrev some_matchers : List (Matcher × ℕ)
some_matchers =
    (full site, 7)
    ∷ (domain site, 8)
    ∷ (substr (b'.' ∷ b'b' ∷ []), 9)
    ∷ (regex (λ s. false), 10)
    ∷ []

match_any-add_all_example :
    (match_any sub_site (add_all some_matchers new_linear_value_matcher) ≡ true)
    × (any_match_any sub_site (add_all_any some_matchers new_linear_any_matcher) ≡ true)
unfolding matches
match_any-add_all_example = match_any-add_all some_matchers sub_site refl

match_values-add_all_example :
    Option.map (has 9) (match_values sub_site (add_all some_matchers new_linear_value_matcher))
    ≡ some true
unfolding matches
match_values-add_all_example = match_values-add_all some_matchers 9 sub_site refl refl (omega arith)

abbrev two_keywords : SubstrMatcherGroup
two_keywords = record { patterns = site ∷ [] ∷ []; values = 1 ∷ 2 ∷ [] }

substr_match-no_empty_example : is_some (substr_match 100 sub_site two_keywords) ≡ false
substr_match-no_empty_example = substr_match-no_empty 100 sub_site two_keywords (omega arith)
