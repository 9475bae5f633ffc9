-- ===== src/Router/Conditions.antt =====
-- xray-go/app/router/condition.go and config.go: the conditions of a rule, and how they are built.
-- The matchers of addresses and of domains, regular expressions and the search for a process are
-- functions; so is `strings.ToLower`.
use xray_core_python.Prelude.{
  ℕ, Bool, true, false, ◌&&◌, ◌||◌, Option, none, some, List, [], ◌∷◌, leb, ◌==◌, if◌then◌else◌,
  length, same_bytes, has_prefix,
}

-- What the conditions read of `routing.Context`.
pub record Context : Type 0 where
  pub inbound_tag : List ℕ
  pub network : ℕ
  pub protocol : List ℕ
  pub target_port : ℕ
  pub source_port : ℕ
  pub local_port : ℕ
  pub vless_route : ℕ
  pub user : List ℕ
  pub attributes : Option (List (List ℕ × List ℕ))
  pub target_ips : List (List ℕ)
  -- The addresses of the context inside a `ResolvableContext`; `none` for any other context.
  pub original_ips : Option (List (List ℕ))
  pub source_ips : List (List ℕ)
  pub local_ips : List (List ℕ)
  pub target_domain : List ℕ
  pub skip_dns_resolve : Bool

pub data MatcherAsType : Type 0 where
  as_local as_source as_target as_vless_route : MatcherAsType

pub data Condition : Type 0 where
  inbound_tag_matcher : List (List ℕ) → Condition
  network_matcher : List ℕ → Condition
  protocol_matcher : List (List ℕ) → Condition
  port_matcher : List (ℕ × ℕ) → MatcherAsType → Condition
  user_matcher : List (List ℕ) → List (List ℕ → Bool) → Condition
  attribute_matcher : List (List ℕ × (List ℕ → Bool)) → Condition
  ip_matcher : (List (List ℕ) → Bool) → MatcherAsType → Condition
  domain_matcher : (List ℕ → Bool) → Condition
  -- It reads the original addresses where there are some.
  process_matcher : (Context → Bool) → Condition

abbrev pub one_of : List ℕ → List (List ℕ) → Bool
one_of s [] = false
one_of s (t ∷ ts) = let rest = one_of s ts in if same_bytes t s then true else rest

abbrev pub has_network : ℕ → List ℕ → Bool
has_network n [] = false
has_network n (m ∷ ms) = let rest = has_network n ms in if m == n then true else rest

abbrev pub begins_with_one : List ℕ → List (List ℕ) → Bool
begins_with_one s [] = false
begins_with_one s (p ∷ ps) =
    let rest = begins_with_one s ps in if has_prefix p s then true else rest

abbrev pub accepted : List ℕ → List (List ℕ → Bool) → Bool
accepted s [] = false
accepted s (f ∷ fs) = let rest = accepted s fs in if f s then true else rest

-- `MemoryPortList.Contains`
abbrev pub contains_port : ℕ → List (ℕ × ℕ) → Bool
contains_port port [] = false
contains_port port ((from, to) ∷ rs) =
    let rest = contains_port port rs in if leb from port && leb port to then true else rest

abbrev pub port_of : MatcherAsType → Context → ℕ
port_of as_local ctx = ctx.local_port
port_of as_source ctx = ctx.source_port
port_of as_target ctx = ctx.target_port
port_of as_vless_route ctx = ctx.vless_route

-- The addresses of a context; with another type the code panics, and none is built so.
abbrev pub ips_of : MatcherAsType → Context → List (List ℕ)
ips_of as_local ctx = ctx.local_ips
ips_of as_source ctx = ctx.source_ips
ips_of as_target ctx = ctx.target_ips
ips_of as_vless_route ctx = []

-- The value of a header under a key, of the headers with their keys in lower case. When keys become
-- the same, the last of the list is kept.
abbrev pub header_value : (List ℕ → List ℕ) → List ℕ → List (List ℕ × List ℕ) → Option (List ℕ)
header_value lower key [] = none
header_value lower key ((k, a) ∷ attrs) =
    later (same_bytes (lower k) key) a (header_value lower key attrs)
  where
    later : Bool → List ℕ → Option (List ℕ) → Option (List ℕ)
    later same a (some b) = some b
    later true a none = some a
    later false a none = none

abbrev pub accepts_header : (List ℕ → Bool) → Option (List ℕ) → Bool
accepts_header f none = false
accepts_header f (some a) = f a

-- `AttributeMatcher.Match`
abbrev pub match_attributes :
    (List ℕ → List ℕ) → List (List ℕ × (List ℕ → Bool)) → List (List ℕ × List ℕ) → Bool
match_attributes lower [] attrs = true
match_attributes lower ((key, f) ∷ keys) attrs =
    let rest = match_attributes lower keys attrs in
    if accepts_header f (header_value lower key attrs) then rest else false

abbrev pub apply_inbound_tags : List (List ℕ) → Context → Bool
apply_inbound_tags tags ctx =
    if length ctx.inbound_tag == 0 then false else one_of ctx.inbound_tag tags

abbrev pub apply_protocols : List (List ℕ) → Context → Bool
apply_protocols protocols ctx =
    if length ctx.protocol == 0 then false else begins_with_one ctx.protocol protocols

abbrev pub apply_users : List (List ℕ) → List (List ℕ → Bool) → Context → Bool
apply_users users patterns ctx =
    if length ctx.user == 0 then false else one_of ctx.user users || accepted ctx.user patterns

abbrev pub apply_attributes :
    (List ℕ → List ℕ) → List (List ℕ × (List ℕ → Bool)) → Option (List (List ℕ × List ℕ)) → Bool
apply_attributes lower keys none = false
apply_attributes lower keys (some attrs) = match_attributes lower keys attrs

abbrev pub apply_domain : (List ℕ → List ℕ) → (List ℕ → Bool) → Context → Bool
apply_domain lower f ctx =
    if length ctx.target_domain == 0 then false else f (lower ctx.target_domain)

-- `Apply` of a condition of any kind.
unfoldable pub apply : (List ℕ → List ℕ) → Condition → Context → Bool
apply lower (inbound_tag_matcher tags) ctx = apply_inbound_tags tags ctx
apply lower (network_matcher networks) ctx = has_network ctx.network networks
apply lower (protocol_matcher protocols) ctx = apply_protocols protocols ctx
apply lower (port_matcher ranges as_type) ctx = contains_port (port_of as_type ctx) ranges
apply lower (user_matcher users patterns) ctx = apply_users users patterns ctx
apply lower (attribute_matcher keys) ctx = apply_attributes lower keys ctx.attributes
apply lower (ip_matcher f as_type) ctx = f (ips_of as_type ctx)
apply lower (domain_matcher f) ctx = apply_domain lower f ctx
apply lower (process_matcher f) ctx = f ctx

-- `ConditionChan.Apply`
unfoldable pub apply_all : (List ℕ → List ℕ) → List Condition → Context → Bool
apply_all lower [] ctx = true
apply_all lower (c ∷ cs) ctx =
    let rest = apply_all lower cs ctx in if apply lower c ctx then rest else false

-- `ContextWithDNSClient` and `ResolvableContext.GetTargetIPs`: what the domain resolves to, or the
-- addresses that there are. The context inside keeps its own.
abbrev pub resolved_ips : Option (List (List ℕ)) → List (List ℕ) → List (List ℕ)
resolved_ips none ips = ips
resolved_ips (some found) ips = found

abbrev pub with_dns : (List ℕ → Option (List (List ℕ))) → Context → Context
with_dns lookup_ip ctx = record ctx {
  target_ips =
      if length ctx.target_domain == 0
      then ctx.target_ips
      else resolved_ips (lookup_ip ctx.target_domain) ctx.target_ips;
  original_ips = some ctx.target_ips;
}
