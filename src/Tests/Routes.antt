-- ===== src/Tests/Routes.antt =====
-- Witnesses of the theorems of Router.
use xray_core_python.Prelude.{ℕ, ◌≡◌, refl, true, false, Option, none, some, List, [], ◌∷◌, arith}
use xray_core_python.Router.Conditions.{Context, port_matcher, as_target}
use xray_core_python.Router.Balancers.{BalancingRule, build_balancer, round_robin_name}
use xray_core_python.Router.Rules.{RoutingRule, Builders, build_condition}
use xray_core_python.Router.State.{
  Router, RouterConfig, ip_if_non_match, first_rule, pick_route_internal, reload_rules,
}
use xray_core_python.Router.Routes.{Outbounds}
use xray_core_python.Router.Tags.{IsWellFormed}
use xray_core_python.Router.Picking.{FirstOf, pick_route_internal-FirstOf, pick_route_internal-skip}
use xray_core_python.Router.Operations.{
  Reloaded, reload_rules-Reloaded, Operation, reload, remove, route, override_target, run_all,
  run_all-IsWellFormed,
}
use xray_core_python.Router.Turns.{turns, turns-length}

abbrev same_text : List ℕ → List ℕ
same_text s = s

abbrev first_tag : List (List ℕ) → List ℕ
first_tag [] = []
first_tag (t ∷ ts) = t

abbrev one_address : List ℕ → Option (List (List ℕ))
one_address s = some ((10 ∷ 0 ∷ 0 ∷ 1 ∷ []) ∷ [])

abbrev builders : Builders
builders = record {
  lower = same_text;
  compile = λ s. none;
  must_compile = λ s t. true;
  build_ips = λ ips. some (λ found. true);
  build_domains = λ ds. some (λ s. true);
  build_processes = λ ps ctx. false;
}

abbrev web_rule : RoutingRule
web_rule = record {
  tag = b'd' ∷ [];
  rule_tag = b'w' ∷ [];
  balancing_tag = b'b' ∷ [];
  inbound_tags = [];
  networks = [];
  protocols = [];
  port_list = some ((80, 443) ∷ []);
  source_port_list = none;
  local_port_list = none;
  vless_route_list = none;
  user_emails = [];
  attributes = [];
  ips = [];
  source_ips = [];
  local_ips = [];
  domains = [];
  processes = [];
}

abbrev turn_balancer : BalancingRule
turn_balancer = record {
  tag = b'b' ∷ [];
  outbound_selector = (b'o' ∷ []) ∷ [];
  strategy_name = round_robin_name;
  fallback = [];
  least_load = none;
}

abbrev web_config : RouterConfig
web_config = record {
  strategy = ip_if_non_match;
  new_rules = web_rule ∷ [];
  balancing_rules = turn_balancer ∷ [];
}

abbrev empty_router : Router
empty_router = record { domain_strategy = ip_if_non_match; rules = []; balancers = [] }

abbrev web_router : Router
web_router = record empty_router {
  rules =
      record {
        outbound_tag = b'd' ∷ [];
        rule_tag = b'w' ∷ [];
        balancer = none;
        conditions = port_matcher ((80, 443) ∷ []) as_target ∷ [];
      }
      ∷ [];
}

abbrev web_context : Context
web_context = record {
  inbound_tag = [];
  network = 2;
  protocol = [];
  target_port = 443;
  source_port = 1000;
  local_port = 1080;
  vless_route = 0;
  user = [];
  attributes = none;
  target_ips = [];
  original_ips = none;
  source_ips = [];
  local_ips = [];
  target_domain = b'a' ∷ [];
  skip_dns_resolve = true;
}

abbrev outbounds : Outbounds
outbounds = record { report = none; select = λ selectors. some selectors }

abbrev some_operations : List Operation
some_operations =
    reload web_config true
    ∷ reload web_config true
    ∷ route web_context
    ∷ override_target (b'b' ∷ []) (b'x' ∷ [])
    ∷ remove (b'w' ∷ [])
    ∷ []

empty_router-IsWellFormed : IsWellFormed empty_router
empty_router-IsWellFormed = record { distinct = refl; known = refl }

run_all-IsWellFormed_example : IsWellFormed (
    run_all
      (build_balancer same_text first_tag first_tag)
      (build_condition builders)
      same_text
      one_address
      outbounds
      some_operations
      empty_router)
run_all-IsWellFormed_example =
    run_all-IsWellFormed (build_balancer same_text first_tag first_tag) (build_condition builders)
      same_text one_address outbounds some_operations empty_router empty_router-IsWellFormed

reload_rules-Reloaded_example :
    Reloaded
      (build_balancer same_text first_tag first_tag)
      (build_condition builders)
      []
      web_config
      (reload_rules
        (build_balancer same_text first_tag first_tag)
        (build_condition builders)
        web_config
        true
        empty_router)
reload_rules-Reloaded_example =
    reload_rules-Reloaded (build_balancer same_text first_tag first_tag) (build_condition builders)
      web_config true empty_router

pick_route_internal-FirstOf_example :
    let picked = pick_route_internal same_text one_address web_router web_context in
    FirstOf same_text picked.1 web_router.rules picked.0
pick_route_internal-FirstOf_example =
    pick_route_internal-FirstOf same_text one_address web_router web_context

pick_route_internal-skip_example :
    pick_route_internal same_text one_address web_router web_context
    ≡ (first_rule same_text web_router.rules web_context, web_context)
pick_route_internal-skip_example =
    pick_route_internal-skip same_text one_address web_router web_context refl

turns-length_example :
    turns 3 ((1 ∷ []) ∷ (2 ∷ []) ∷ (3 ∷ []) ∷ []) 1 ≡ ((2 ∷ []) ∷ (3 ∷ []) ∷ (1 ∷ []) ∷ [], 1)
turns-length_example = turns-length ((1 ∷ []) ∷ (2 ∷ []) ∷ (3 ∷ []) ∷ []) 1 (omega arith)
