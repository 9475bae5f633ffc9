-- ===== src/Strmatcher/Linear.antt =====
-- xray-go/common/geodata/strmatcher: the linear matchers, of a group for each kind of matcher.
mod MatchAny
pub mod Has
mod Keywords
pub mod Values
pub mod AddAll
use mathlib.Core.Option
use mathlib.Core.Option.{Option}
use xray_core_python.Prelude.{
  ℕ, zero, suc, ◌+◌, ◌≡◌, Bool, true, false, ◌&&◌, ◌||◌, not, none, some, List, [], ◌∷◌, ◌++◌,
  if◌then◌else◌, length, u32, ◌==◌, same_bytes,
}
use xray_core_python.Strmatcher.{
  Matcher, full, domain, substr, regex, matches, DomainMatcherGroup, new_domain_group,
  add_domain_matcher, domain_match, domain_match_any, FullMatcherGroup, add_full_matcher,
  full_match, full_match_any, SimpleMatcherGroup, simple_match, simple_match_any, DomainMatcherSet,
  new_domain_set, add_to_set, set_match_any,
}
use xray_core_python.Strmatcher.Substr.{
  SubstrMatcherGroup, new_substr_group, add_substr_matcher, substr_match, substr_match_any,
  contains_any,
}

-- A group that is nil is an empty one, which matches nothing.
pub record LinearValueMatcher : Type 0 where
  fulls : FullMatcherGroup
  domains : DomainMatcherGroup
  substrs : SubstrMatcherGroup
  regexes : SimpleMatcherGroup

abbrev pub new_linear_value_matcher : LinearValueMatcher
new_linear_value_matcher = record {
  fulls = [];
  domains = new_domain_group;
  substrs = new_substr_group;
  regexes = [];
}

unfoldable pub add_matcher : Matcher → ℕ → LinearValueMatcher → LinearValueMatcher
add_matcher (full p) value g = record g { fulls = add_full_matcher p value g.fulls }
add_matcher (domain p) value g = record g { domains = add_domain_matcher p value g.domains }
add_matcher (substr p) value g = record g { substrs = add_substr_matcher p value g.substrs }
add_matcher (regex f) value g = record g { regexes = g.regexes ++ ((regex f, value) ∷ []) }

-- `Match`: full matchers, domains, parts, and the others, or none for a loop that does not end.
unfoldable pub match_values : List ℕ → LinearValueMatcher → Option (List ℕ)
match_values input g =
    Option.map
      (λ found.
        full_match input g.fulls
        ++ (domain_match input g.domains ++ (found ++ simple_match input g.regexes)))
      (substr_match (suc (length input)) input g.substrs)

unfoldable pub match_any : List ℕ → LinearValueMatcher → Bool
match_any input g =
    if full_match_any input g.fulls
    then true
    else if domain_match_any input g.domains
    then true
    else if substr_match_any input g.substrs
    then true
    else simple_match_any input g.regexes

-- `LinearIndexMatcher`, which has the same groups and gives out the values itself.
pub record LinearIndexMatcher : Type 0 where
  count : ℕ
  groups : LinearValueMatcher

abbrev pub add_indexed : Matcher → LinearIndexMatcher → LinearIndexMatcher × ℕ
add_indexed m g =
    let index = u32 (g.count + 1) in
    (record g { count = index; groups = add_matcher m index g.groups }, index)

abbrev pub match_indices : List ℕ → LinearIndexMatcher → Option (List ℕ)
match_indices input g = match_values input g.groups

abbrev pub match_any_index : List ℕ → LinearIndexMatcher → Bool
match_any_index input g = match_any input g.groups

-- `LinearAnyMatcher`: the sets, which have no values.
pub record LinearAnyMatcher : Type 0 where
  full_set : List (List ℕ)
  domain_set : DomainMatcherSet
  substr_set : List (List ℕ)
  simple_set : List Matcher

abbrev pub new_linear_any_matcher : LinearAnyMatcher
new_linear_any_matcher = record {
  full_set = [];
  domain_set = new_domain_set;
  substr_set = [];
  simple_set = [];
}

unfoldable pub add_any : Matcher → LinearAnyMatcher → LinearAnyMatcher
add_any (full p) s = record s { full_set = p ∷ s.full_set }
add_any (domain p) s = record s { domain_set = add_to_set p s.domain_set }
add_any (substr p) s = record s { substr_set = s.substr_set ++ (p ∷ []) }
add_any (regex f) s = record s { simple_set = s.simple_set ++ (regex f ∷ []) }

abbrev pub in_full_set : List ℕ → List (List ℕ) → Bool
in_full_set input [] = false
in_full_set input (p ∷ ps) =
    let rest = in_full_set input ps in if same_bytes p input then true else rest

unfoldable pub in_simple_set : List ℕ → List Matcher → Bool
in_simple_set input [] = false
in_simple_set input (m ∷ ms) =
    let rest = in_simple_set input ms in if matches m input then true else rest

unfoldable pub any_match_any : List ℕ → LinearAnyMatcher → Bool
any_match_any input s =
    if in_full_set input s.full_set
    then true
    else if set_match_any input s.domain_set
    then true
    else if contains_any s.substr_set input
    then true
    else in_simple_set input s.simple_set
