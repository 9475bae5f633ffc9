-- ===== src/Router/Operations.antt =====
-- All operations of a router, and what a reload leaves of its rules.
use xray_core_python.Prelude.{
  ℕ, ◌≡◌, refl, subst, if◌then◌else◌, ◌∙◌, Bool, true, false, Option, none, some, ◌⊎◌, inl, inr,
  List, [], ◌∷◌, ◌++◌, ◌==◌, length, Bool-cases,
}
use xray_core_python.Router.Conditions.{Context, Condition}
use xray_core_python.Router.Balancers.{Balancer, BalancingRule, pick_outbound}
use xray_core_python.Router.Rules.{RoutingRule}
use xray_core_python.Router.State.{
  Rule, Router, RouterConfig, RouterError, balancer_of, kept, with_rules, add_balancers, add_rules,
  with_balancers, reload_rules, remove_rule, pick_route_internal,
}
use xray_core_python.Router.Routes.{
  Outbounds, set_balancer, balanced, route_by, route_with, pick_route, override_with,
  set_override_target,
}
use xray_core_python.Router.Tags.{
  IsWellFormed, all_known-set_balancer, all_known-without_rule, distinct_tags-without_rule,
}
use xray_core_python.Router.Reloading.{AreMade, add_rules-AreMade, reload_rules-IsWellFormed}

module _ (build : BalancingRule → Option Balancer)
    (condition : RoutingRule → Option (List Condition)) where
  -- What a reload comes to: all new rules behind the old ones, or an error and no new rule.
  pub data Reloaded (old : List Rule) (config : RouterConfig)
      : Router × Option RouterError → Type 0 where
    taken :
        (r : Router) (new : List Rule)
        → r.rules ≡ old ++ new
        → AreMade build condition r.balancers config.new_rules new
        → Reloaded old config (r, none)
    refused : (r : Router) (e : RouterError) → r.rules ≡ old → Reloaded old config (r, some e)

  with_rules-Reloaded :
      (left : Router) (config : RouterConfig) (bs : List (List ℕ × Balancer))
      (o : List Rule ⊎ RouterError)
      → ((rs : List Rule)
          → o ≡ inl rs
          → (new : List Rule) × ((rs ≡ left.rules ++ new)
              × AreMade build condition bs config.new_rules new))
      → Reloaded left.rules config (with_rules left bs o)
  with_rules-Reloaded left config bs (inl rs) h =
      let (new, (same, made)) = h rs refl in
      taken (record left { rules = rs; balancers = bs }) new same made
  with_rules-Reloaded left config bs (inr e) h = refused (record left { balancers = bs }) e refl

  with_balancers-Reloaded :
      (left : Router) (config : RouterConfig)
      (found : List (List ℕ × Balancer) × Option RouterError)
      → Reloaded left.rules config (with_balancers build condition left config.new_rules found)
  with_balancers-Reloaded left config (bs, some e) = refused (record left { balancers = bs }) e refl
  with_balancers-Reloaded left config (bs, none) =
      with_rules-Reloaded left config bs (add_rules build condition config.new_rules bs left.rules)
        (λ rs e. add_rules-AreMade build condition config.new_rules bs left.rules rs e)

  kept-rules :
      (should_append : Bool) (r : Router)
      → (kept should_append r).rules ≡ (if should_append then r.rules else [])
  kept-rules true r = refl
  kept-rules false r = refl

  -- A reload puts the rules of its configuration, in their order, behind the rules that the router
  -- had when it should append, and in place of them when it should not; each has the tags that the
  -- configuration gives it, the conditions built of it, and the balancer that it names, which the
  -- router has. Or it reports an error, and the rules are the old ones, or none when it should not
  -- append.
  pub reload_rules-Reloaded :
      (config : RouterConfig) (should_append : Bool) (r : Router)
      → Reloaded
          (if should_append then r.rules else [])
          config
          (reload_rules build condition config should_append r)
  unfolding reload_rules
  reload_rules-Reloaded config should_append r =
      let left = kept should_append r in
      subst (λ old. Reloaded old config (reload_rules build condition config should_append r))
        (kept-rules should_append r)
        (with_balancers-Reloaded left config
          (add_balancers build condition config.balancing_rules left.balancers))

set_balancer-IsWellFormed :
    (r : Router) (tag : List ℕ) (b : Balancer)
    → IsWellFormed r
    → IsWellFormed (record r { balancers = set_balancer tag b r.balancers })
set_balancer-IsWellFormed r tag b h = record {
  distinct = h.distinct;
  known = all_known-set_balancer r.balancers tag b r.rules ∙ h.known;
}

balanced-IsWellFormed :
    (out : Outbounds) (r : Router) (ctx : Context) (rule : Rule) (tag : List ℕ)
    (o : Option Balancer)
    → IsWellFormed r
    → IsWellFormed (balanced out r ctx rule tag o).1
balanced-IsWellFormed out r ctx rule tag none h = h
balanced-IsWellFormed out r ctx rule tag (some b) h =
    set_balancer-IsWellFormed r tag (pick_outbound out.report (out.select b.selectors) b).1 h

route_by-IsWellFormed :
    (out : Outbounds) (r : Router) (ctx : Context) (rule : Rule) (o : Option (List ℕ))
    → IsWellFormed r
    → IsWellFormed (route_by out r ctx rule o).1
route_by-IsWellFormed out r ctx rule none h = h
route_by-IsWellFormed out r ctx rule (some tag) h =
    balanced-IsWellFormed out r ctx rule tag (balancer_of tag r.balancers) h

route_with-IsWellFormed :
    (out : Outbounds) (r : Router) (picked : Option Rule × Context)
    → IsWellFormed r
    → IsWellFormed (route_with out r picked).1
route_with-IsWellFormed out r (none, ctx) h = h
route_with-IsWellFormed out r (some rule, ctx) h =
    route_by-IsWellFormed out r ctx rule rule.balancer h

override_with-IsWellFormed :
    (tag target : List ℕ) (r : Router) (o : Option Balancer)
    → IsWellFormed r
    → IsWellFormed (override_with tag target r o).0
override_with-IsWellFormed tag target r none h = h
override_with-IsWellFormed tag target r (some b) h =
    set_balancer-IsWellFormed r tag (record b { override = target }) h

remove_rule-IsWellFormed :
    (tag : List ℕ) (r : Router) → IsWellFormed r → IsWellFormed (remove_rule tag r).0
remove_rule-IsWellFormed tag r h =
    unfold remove_rule in
    elim (Bool-cases (length tag == 0)) [
      | inl e ↦ rw (e) h
      | inr e ↦ rw (e) (record {
        distinct = distinct_tags-without_rule tag r.rules h.distinct;
        known = all_known-without_rule r.balancers tag r.rules h.known;
      })
    ]

-- The calls that change a router.
pub data Operation : Type 0 where
  reload : RouterConfig → Bool → Operation
  remove : List ℕ → Operation
  route : Context → Operation
  override_target : List ℕ → List ℕ → Operation

module _ (build : BalancingRule → Option Balancer)
    (condition : RoutingRule → Option (List Condition)) (lower : List ℕ → List ℕ)
    (lookup_ip : List ℕ → Option (List (List ℕ))) (out : Outbounds) where
  abbrev pub run : Operation → Router → Router
  run (reload config should_append) r = (reload_rules build condition config should_append r).0
  run (remove tag) r = (remove_rule tag r).0
  run (route ctx) r = (pick_route lower lookup_ip out r ctx).1
  run (override_target tag target) r = (set_override_target tag target r).0

  abbrev pub run_all : List Operation → Router → Router
  run_all [] r = r
  run_all (o ∷ os) r = run_all os (run o r)

  run-IsWellFormed : (o : Operation) (r : Router) → IsWellFormed r → IsWellFormed (run o r)
  run-IsWellFormed (reload config should_append) r h =
      reload_rules-IsWellFormed build condition config should_append r h
  run-IsWellFormed (remove tag) r h = remove_rule-IsWellFormed tag r h
  run-IsWellFormed (route ctx) r h =
      unfold pick_route in
      route_with-IsWellFormed out r (pick_route_internal lower lookup_ip r ctx) h
  run-IsWellFormed (override_target tag target) r h =
      unfold set_override_target in
      override_with-IsWellFormed tag target r (balancer_of tag r.balancers) h

  -- Through all calls that change it, failed ones included, a router whose rules have their
  -- balancers and tags of their own, but for empty ones, stays such a router.
  pub run_all-IsWellFormed :
      (os : List Operation) (r : Router) → IsWellFormed r → IsWellFormed (run_all os r)
  run_all-IsWellFormed [] r h = h
  run_all-IsWellFormed (o ∷ os) r h = run_all-IsWellFormed os (run o r) (run-IsWellFormed o r h)
