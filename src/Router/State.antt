-- ===== src/Router/State.antt =====
-- xray-go/app/router/router.go: the state of a router, and its operations.
-- A rule holds the tag of its balancer for the pointer to it.
use xray_core_python.Prelude.{
  ℕ, Bool, true, false, ◌&&◌, ◌||◌, not, Option, none, some, ◌⊎◌, inl, inr, List, [], ◌∷◌, ◌++◌,
  ◌==◌, if◌then◌else◌, length, same_bytes, is_some,
}
use xray_core_python.Router.Conditions.{Context, Condition, apply_all, with_dns}
use xray_core_python.Router.Balancers.{Balancer, BalancingRule}
use xray_core_python.Router.Rules.{RoutingRule}

pub record Rule : Type 0 where
  pub outbound_tag : List ℕ
  pub rule_tag : List ℕ
  pub balancer : Option (List ℕ)
  pub conditions : List Condition

pub data DomainStrategy : Type 0 where
  as_is ip_if_non_match ip_on_demand : DomainStrategy

pub record Router : Type 0 where
  pub domain_strategy : DomainStrategy
  pub rules : List Rule
  pub balancers : List (List ℕ × Balancer)

pub record RouterConfig : Type 0 where
  pub strategy : DomainStrategy
  pub new_rules : List RoutingRule
  pub balancing_rules : List BalancingRule

-- What can go wrong.
pub data RouterError : Type 0 where
  duplicate_balancer bad_balancer duplicate_rule bad_condition no_balancer no_clue empty_tag :
      RouterError

-- `r.balancers[tag]`
abbrev pub balancer_of : List ℕ → List (List ℕ × Balancer) → Option Balancer
balancer_of tag [] = none
balancer_of tag ((t, b) ∷ bs) =
    let rest = balancer_of tag bs in if same_bytes t tag then some b else rest

abbrev pub put_balancer : List ℕ → Balancer → List (List ℕ × Balancer) → List (List ℕ × Balancer)
put_balancer tag b bs = (tag, b) ∷ bs

-- `RuleExists`
abbrev pub any_rule : List ℕ → List Rule → Bool
any_rule tag [] = false
any_rule tag (r ∷ rs) =
    let rest = any_rule tag rs in if same_bytes r.rule_tag tag then true else rest

abbrev pub rule_exists : List ℕ → List Rule → Bool
rule_exists tag rs = if length tag == 0 then false else any_rule tag rs

-- A balancer goes on to the next one, unless its tag is there or it is not built.
abbrev pub next_balancer :
    {A : Type 0} → Option Balancer → Option Balancer → (RouterError → A) → (Balancer → A) → A
next_balancer (some old) built failed go = failed duplicate_balancer
next_balancer none none failed go = failed bad_balancer
next_balancer none (some b) failed go = go b

-- A rule of its conditions and its balancer, when that is there.
abbrev pub make_rule :
    RoutingRule → List (List ℕ × Balancer) → Option (List Condition) → Rule ⊎ RouterError
make_rule rr bs none = inr bad_condition
make_rule rr bs (some cs) =
    if length rr.balancing_tag == 0
    then inl
        (record { outbound_tag = rr.tag; rule_tag = rr.rule_tag; balancer = none; conditions = cs })
    else if is_some (balancer_of rr.balancing_tag bs)
    then inl (record {
      outbound_tag = rr.tag;
      rule_tag = rr.rule_tag;
      balancer = some rr.balancing_tag;
      conditions = cs;
    })
    else inr no_balancer

abbrev pub next_rule :
    Bool → Rule ⊎ RouterError → (Rule → List Rule ⊎ RouterError) → List Rule ⊎ RouterError
next_rule true made go = inr duplicate_rule
next_rule false (inr e) go = inr e
next_rule false (inl r) go = go r

-- What is left of a router when rules are to be replaced.
abbrev pub kept : Bool → Router → Router
kept should_append r = if should_append then r else record r { rules = []; balancers = [] }

abbrev pub with_rules :
    Router → List (List ℕ × Balancer) → List Rule ⊎ RouterError → Router × Option RouterError
with_rules r bs (inl rs) = (record r { rules = rs; balancers = bs }, none)
with_rules r bs (inr e) = (record r { balancers = bs }, some e)

module _ (build : BalancingRule → Option Balancer)
    (condition : RoutingRule → Option (List Condition)) where
  -- The first loop of `ReloadRules`: the balancers so far, and the error that ended it.
  unfoldable pub add_balancers :
      List BalancingRule → List (List ℕ × Balancer) → List (List ℕ × Balancer) × Option RouterError
  add_balancers [] bs = (bs, none)
  add_balancers (br ∷ brs) bs =
      next_balancer (balancer_of br.tag bs) (build br) (λ e. (bs, some e))
        (λ b. add_balancers brs (put_balancer br.tag b bs))

  -- The second loop of `ReloadRules`: the rules, or the error that ended it.
  unfoldable pub add_rules :
      List RoutingRule → List (List ℕ × Balancer) → List Rule → List Rule ⊎ RouterError
  add_rules [] bs rs = inl rs
  add_rules (rr ∷ rrs) bs rs =
      next_rule (rule_exists rr.rule_tag rs) (make_rule rr bs (condition rr))
        (λ r. add_rules rrs bs (rs ++ (r ∷ [])))

  abbrev pub with_balancers :
      Router
      → List RoutingRule
      → List (List ℕ × Balancer) × Option RouterError
      → Router × Option RouterError
  with_balancers r rrs (bs, some e) = (record r { balancers = bs }, some e)
  with_balancers r rrs (bs, none) = with_rules r bs (add_rules rrs bs r.rules)

  -- `ReloadRules`. After an error, the new rules are taken back, and the new balancers are not.
  unfoldable pub reload_rules : RouterConfig → Bool → Router → Router × Option RouterError
  reload_rules config should_append r =
      let left = kept should_append r in
      with_balancers left config.new_rules (add_balancers config.balancing_rules left.balancers)

  -- The loops of `Init`, which look for no tag that is there before.
  unfoldable pub init_balancers :
      List BalancingRule → List (List ℕ × Balancer) → Option (List (List ℕ × Balancer))
  init_balancers [] bs = some bs
  init_balancers (br ∷ brs) bs =
      next_balancer none (build br) (λ e. none) (λ b. init_balancers brs (put_balancer br.tag b bs))

  unfoldable pub init_rules :
      List RoutingRule → List (List ℕ × Balancer) → List Rule → List Rule ⊎ RouterError
  init_rules [] bs rs = inl rs
  init_rules (rr ∷ rrs) bs rs =
      next_rule false (make_rule rr bs (condition rr)) (λ r. init_rules rrs bs (rs ++ (r ∷ [])))

-- `RemoveRule`
abbrev pub without_rule : List ℕ → List Rule → List Rule
without_rule tag [] = []
without_rule tag (r ∷ rs) =
    let rest = without_rule tag rs in if same_bytes r.rule_tag tag then rest else r ∷ rest

unfoldable pub remove_rule : List ℕ → Router → Router × Option RouterError
remove_rule tag r =
    if length tag == 0
    then (r, some empty_tag)
    else (record r { rules = without_rule tag r.rules }, none)

-- The loops of `pickRouteInternal`: the first rule that applies.
unfoldable pub first_rule : (List ℕ → List ℕ) → List Rule → Context → Option Rule
first_rule lower [] ctx = none
first_rule lower (r ∷ rs) ctx =
    let rest = first_rule lower rs ctx in if apply_all lower r.conditions ctx then some r else rest

abbrev pub is_on_demand : DomainStrategy → Bool
is_on_demand ip_on_demand = true
is_on_demand s = false

abbrev pub is_if_non_match : DomainStrategy → Bool
is_if_non_match ip_if_non_match = true
is_if_non_match s = false

module _ (lower : List ℕ → List ℕ) (lookup_ip : List ℕ → Option (List (List ℕ))) where
  -- The context of the first loop.
  abbrev pub first_context : DomainStrategy → Context → Context
  first_context s ctx =
      if is_on_demand s && not ctx.skip_dns_resolve then with_dns lookup_ip ctx else ctx

  abbrev pub or_second : Router → Context → Option Rule → Option Rule × Context
  or_second r ctx (some rule) = (some rule, ctx)
  or_second r ctx none =
      if not (is_if_non_match r.domain_strategy)
        || (length ctx.target_domain == 0 || ctx.skip_dns_resolve)
      then (none, ctx)
      else (first_rule lower r.rules (with_dns lookup_ip ctx), with_dns lookup_ip ctx)

  -- `pickRouteInternal`: the rule, or none for `ErrNoClue`, and the context.
  unfoldable pub pick_route_internal : Router → Context → Option Rule × Context
  pick_route_internal r ctx =
      let first = first_context r.domain_strategy ctx in
      or_second r first (first_rule lower r.rules first)

-- `Init`: a router of a configuration, or the error that ended it.
abbrev pub init_with :
    (List (List ℕ × Balancer) → List Rule ⊎ RouterError)
    → DomainStrategy
    → Option (List (List ℕ × Balancer))
    → Router ⊎ RouterError
init_with make s none = inr bad_balancer
init_with make s (some bs) = init_rules_with s bs (make bs)
  where
    init_rules_with :
        DomainStrategy → List (List ℕ × Balancer) → List Rule ⊎ RouterError → Router ⊎ RouterError
    init_rules_with s bs (inr e) = inr e
    init_rules_with s bs (inl rs) = inl (record { domain_strategy = s; rules = rs; balancers = bs })

unfoldable pub init_router :
    (BalancingRule → Option Balancer)
    → (RoutingRule → Option (List Condition))
    → RouterConfig
    → Router ⊎ RouterError
init_router build condition config =
    init_with (λ bs. init_rules build condition config.new_rules bs []) config.strategy
      (init_balancers build condition config.balancing_rules [])
