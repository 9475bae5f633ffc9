-- ===== src/Router/Rules.antt =====
-- xray-go/app/router/router.go: the rules and the balancers of a router.
use xray_core_python.Prelude.{
  ℕ, Bool, ◌&&◌, Option, none, some, List, [], ◌∷◌, ◌++◌, ltb, ◌==◌, if◌then◌else◌, length, drop,
  u16, has_prefix, same_bytes, true, false,
}
use xray_core_python.Router.Conditions.{
  Context, Condition, inbound_tag_matcher, network_matcher, protocol_matcher, port_matcher,
  user_matcher, attribute_matcher, ip_matcher, domain_matcher, process_matcher, as_local, as_source,
  as_target, as_vless_route,
}

-- A rule of the configuration.
pub record RoutingRule : Type 0 where
  pub tag : List ℕ
  pub rule_tag : List ℕ
  pub balancing_tag : List ℕ
  pub inbound_tags : List (List ℕ)
  pub networks : List ℕ
  pub protocols : List (List ℕ)
  pub port_list : Option (List (ℕ × ℕ))
  pub source_port_list : Option (List (ℕ × ℕ))
  pub local_port_list : Option (List (ℕ × ℕ))
  pub vless_route_list : Option (List (ℕ × ℕ))
  pub user_emails : List (List ℕ)
  pub attributes : List (List ℕ × List ℕ)
  pub ips : List (List ℕ)
  pub source_ips : List (List ℕ)
  pub local_ips : List (List ℕ)
  pub domains : List (List ℕ)
  pub processes : List (List ℕ)

-- What the conditions are built with: `strings.ToLower`, `regexp.Compile` and `regexp.MustCompile`,
-- and the builders of the matchers of addresses, domains and processes.
pub record Builders : Type 0 where
  pub lower : List ℕ → List ℕ
  pub compile : List ℕ → Option (List ℕ → Bool)
  pub must_compile : List ℕ → List ℕ → Bool
  pub build_ips : List (List ℕ) → Option (List (List ℕ) → Bool)
  pub build_domains : List (List ℕ) → Option (List ℕ → Bool)
  pub build_processes : List (List ℕ) → Context → Bool

abbrev pub nonempty : List (List ℕ) → List (List ℕ)
nonempty [] = []
nonempty (t ∷ ts) = let rest = nonempty ts in if length t == 0 then rest else t ∷ rest

-- `regexp:`
abbrev pub regexp_prefix : List ℕ
regexp_prefix = b'r' ∷ b'e' ∷ b'g' ∷ b'e' ∷ b'x' ∷ b'p' ∷ b':' ∷ []

abbrev pub is_regexp : List ℕ → Bool
is_regexp user = ltb 7 (length user) && has_prefix regexp_prefix user

-- `NewUserMatcher`: the names, and the patterns that are valid.
abbrev pub plain_users : List (List ℕ) → List (List ℕ)
plain_users [] = []
plain_users (u ∷ us) =
    let rest = plain_users us in
    if length u == 0 then rest else if is_regexp u then rest else u ∷ rest

abbrev pub add_pattern : Option (List ℕ → Bool) → List (List ℕ → Bool) → List (List ℕ → Bool)
add_pattern none rest = rest
add_pattern (some f) rest = f ∷ rest

abbrev pub user_patterns : (List ℕ → Option (List ℕ → Bool)) → List (List ℕ) → List (List ℕ → Bool)
user_patterns compile [] = []
user_patterns compile (u ∷ us) =
    let rest = user_patterns compile us in
    if is_regexp u then add_pattern (compile (drop 7 u)) rest else rest

-- `PortListFromProto`
abbrev pub port_ranges : List (ℕ × ℕ) → List (ℕ × ℕ)
port_ranges [] = []
port_ranges ((from, to) ∷ rs) = (u16 from, u16 to) ∷ port_ranges rs

abbrev pub when_some : {A : Type 0} → List A → Condition → List Condition
when_some [] c = []
when_some (x ∷ xs) c = c ∷ []

abbrev pub when_ports : Option (List (ℕ × ℕ)) → (List (ℕ × ℕ) → Condition) → List Condition
when_ports none c = []
when_ports (some rs) c = c (port_ranges rs) ∷ []

-- The matcher of a list that is not empty, or none for an error.
abbrev pub when_built :
    {A : Type 0} → List (List ℕ) → Option A → (A → Condition) → Option (List Condition)
when_built [] built c = some []
when_built (x ∷ xs) none c = none
when_built (x ∷ xs) (some f) c = some (c f ∷ [])

abbrev pub followed_by : Option (List Condition) → Option (List Condition) → Option (List Condition)
followed_by none more = none
followed_by (some cs) none = none
followed_by (some cs) (some ds) = some (cs ++ ds)

-- No conditions are an error.
abbrev pub some_conditions : Option (List Condition) → Option (List Condition)
some_conditions none = none
some_conditions (some []) = none
some_conditions (some (c ∷ cs)) = some (c ∷ cs)

abbrev pub has_key : List ℕ → List (List ℕ × (List ℕ → Bool)) → Bool
has_key key [] = false
has_key key ((k, f) ∷ keys) = let rest = has_key key keys in if same_bytes k key then true else rest

-- The patterns by their keys in lower case. When keys become the same, the last of the list is kept.
abbrev pub configured_keys : Builders → List (List ℕ × List ℕ) → List (List ℕ × (List ℕ → Bool))
configured_keys b [] = []
configured_keys b ((key, pattern) ∷ attrs) =
    let rest = configured_keys b attrs in
    if has_key (b.lower key) rest then rest else (b.lower key, b.must_compile pattern) ∷ rest

-- `RoutingRule.BuildCondition`, or none for an error.
unfoldable pub build_condition : Builders → RoutingRule → Option (List Condition)
build_condition b rr =
    let simple =
      when_some rr.inbound_tags (inbound_tag_matcher (nonempty rr.inbound_tags))
      ++ (when_some rr.networks (network_matcher rr.networks)
          ++ (when_some rr.protocols (protocol_matcher (nonempty rr.protocols))
              ++ (when_ports rr.port_list (λ rs. port_matcher rs as_target)
                  ++ (when_ports rr.source_port_list (λ rs. port_matcher rs as_source)
                      ++ (when_ports rr.local_port_list (λ rs. port_matcher rs as_local)
                          ++ (when_ports rr.vless_route_list (λ rs. port_matcher rs as_vless_route)
                              ++ (when_some rr.user_emails (
                                    user_matcher (plain_users rr.user_emails)
                                      (user_patterns b.compile rr.user_emails))
                                  ++ when_some rr.attributes (
                                      attribute_matcher (configured_keys b rr.attributes))))))))) in
    some_conditions (
      followed_by (some simple) (
        followed_by (when_built rr.ips (b.build_ips rr.ips) (λ f. ip_matcher f as_target)) (
          followed_by
            (when_built rr.source_ips (b.build_ips rr.source_ips) (λ f. ip_matcher f as_source))
            (followed_by
              (when_built rr.local_ips (b.build_ips rr.local_ips) (λ f. ip_matcher f as_local))
              (followed_by (when_built rr.domains (b.build_domains rr.domains) domain_matcher) (
                some
                  (when_some rr.processes (process_matcher (b.build_processes rr.processes)))))))))
