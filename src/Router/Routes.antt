-- ===== src/Router/Routes.antt =====
-- xray-go/app/router/router.go and balancing.go: the route of a connection, and overrides.
use xray_core_python.Prelude.{
  ℕ, Bool, true, false, Option, none, some, List, [], ◌∷◌, if◌then◌else◌, same_bytes,
}
use xray_core_python.Router.Conditions.{Context}
use xray_core_python.Router.Balancers.{Balancer, pick_outbound}
use xray_core_python.Router.State.{Rule, Router, balancer_of, pick_route_internal}

-- A balancer in the place of the one that has its tag.
abbrev pub set_balancer : List ℕ → Balancer → List (List ℕ × Balancer) → List (List ℕ × Balancer)
set_balancer tag b [] = []
set_balancer tag b ((t, old) ∷ bs) =
    let rest = set_balancer tag b bs in if same_bytes t tag then (t, b) ∷ bs else (t, old) ∷ rest

pub record Route : Type 0 where
  pub route_context : Context
  pub route_tag : List ℕ
  pub route_rule_tag : List ℕ

-- What the balancers ask: the report of the observatory, and the outbounds for the selectors.
pub record Outbounds : Type 0 where
  pub report : Option (List (List ℕ × Bool))
  pub select : List (List ℕ) → Option (List (List ℕ))

abbrev pub route_of : Context → Rule → Option (List ℕ) → Option Route
route_of ctx rule none = none
route_of ctx rule (some tag) =
    some (record { route_context = ctx; route_tag = tag; route_rule_tag = rule.rule_tag })

-- `Rule.GetTag` and the rest of `PickRoute`, with the balancer that the rule points to.
abbrev pub balanced :
    Outbounds → Router → Context → Rule → List ℕ → Option Balancer → Option Route × Router
balanced out r ctx rule tag none = (none, r)
balanced out r ctx rule tag (some b) =
    let (picked, next) = pick_outbound out.report (out.select b.selectors) b in
    (route_of ctx rule picked, record r { balancers = set_balancer tag next r.balancers })

abbrev pub route_by : Outbounds → Router → Context → Rule → Option (List ℕ) → Option Route × Router
route_by out r ctx rule none = (route_of ctx rule (some rule.outbound_tag), r)
route_by out r ctx rule (some tag) = balanced out r ctx rule tag (balancer_of tag r.balancers)

abbrev pub route_with : Outbounds → Router → Option Rule × Context → Option Route × Router
route_with out r (none, ctx) = (none, r)
route_with out r (some rule, ctx) = route_by out r ctx rule rule.balancer

-- `PickRoute`: the route, or none for an error, and the router with the next turn of its balancers.
unfoldable pub pick_route :
    (List ℕ → List ℕ)
    → (List ℕ → Option (List (List ℕ)))
    → Outbounds
    → Router
    → Context
    → Option Route × Router
pick_route lower lookup_ip out r ctx = route_with out r (pick_route_internal lower lookup_ip r ctx)

abbrev pub override_with : List ℕ → List ℕ → Router → Option Balancer → Router × Bool
override_with tag target r none = (r, false)
override_with tag target r (some b) =
    (record r { balancers = set_balancer tag (record b { override = target }) r.balancers }, true)

-- `SetOverrideTarget`: whether there is the balancer.
unfoldable pub set_override_target : List ℕ → List ℕ → Router → Router × Bool
set_override_target tag target r = override_with tag target r (balancer_of tag r.balancers)
