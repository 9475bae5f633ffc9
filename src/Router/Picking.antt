-- ===== src/Router/Picking.antt =====
-- Which rule a router picks.
use xray_core_python.Prelude.{
  ℕ, ◌≡◌, refl, ap, ◌∙◌, Bool, true, false, ◌||◌, not, Option, none, some, inl, inr, List, [], ◌∷◌,
  if◌then◌else◌, length, ◌==◌, arith, Bool-cases,
}
use xray_core_python.Router.Conditions.{Context, apply_all, with_dns}
use xray_core_python.Router.State.{
  Rule, Router, DomainStrategy, as_is, ip_if_non_match, ip_on_demand, is_if_non_match, first_rule,
  first_context, or_second, pick_route_internal,
}

-- The first of some rules that applies to a context, when one does.
pub data FirstOf (lower : List ℕ → List ℕ) (ctx : Context) : List Rule → Option Rule → Type 0 where
  no_rules : FirstOf lower ctx [] none
  applies :
      (r : Rule) (rs : List Rule)
      → apply_all lower r.conditions ctx ≡ true
      → FirstOf lower ctx (r ∷ rs) (some r)
  passes :
      (r : Rule) (rs : List Rule) (o : Option Rule)
      → apply_all lower r.conditions ctx ≡ false
      → FirstOf lower ctx rs o
      → FirstOf lower ctx (r ∷ rs) o

first_rule-FirstOf :
    (lower : List ℕ → List ℕ) (rs : List Rule) (ctx : Context)
    → FirstOf lower ctx rs (first_rule lower rs ctx)
unfolding first_rule
first_rule-FirstOf lower [] ctx = no_rules
first_rule-FirstOf lower (r ∷ rs) ctx = elim (Bool-cases (apply_all lower r.conditions ctx)) [
  | inl e ↦ rw (e) (applies r rs e)
  | inr e ↦ rw (e) (passes r rs (first_rule lower rs ctx) e (first_rule-FirstOf lower rs ctx))
]

module _ (lower : List ℕ → List ℕ) (lookup_ip : List ℕ → Option (List (List ℕ))) where
  or_second-FirstOf :
      (r : Router) (ctx : Context) (o : Option Rule)
      → FirstOf lower ctx r.rules o
      → let picked = or_second lower lookup_ip r ctx o in FirstOf lower picked.1 r.rules picked.0
  or_second-FirstOf r ctx (some rule) h = h
  or_second-FirstOf r ctx none h =
      elim (Bool-cases (
        not (is_if_non_match r.domain_strategy)
        || (length ctx.target_domain == 0 || ctx.skip_dns_resolve))) [
          | inl e ↦ rw (e) h
          | inr e ↦ rw (e) (first_rule-FirstOf lower r.rules (with_dns lookup_ip ctx))
        ]

  -- The rule that a router picks is the first one that applies to the context that it returns, and
  -- it picks none only when none applies to that context, under each strategy.
  pub pick_route_internal-FirstOf :
      (r : Router) (ctx : Context)
      → let picked = pick_route_internal lower lookup_ip r ctx in
        FirstOf lower picked.1 r.rules picked.0
  unfolding pick_route_internal
  pick_route_internal-FirstOf r ctx =
      let first = first_context lower lookup_ip r.domain_strategy ctx in
      or_second-FirstOf r first (first_rule lower r.rules first)
        (first_rule-FirstOf lower r.rules first)

skipped_context :
    (lower : List ℕ → List ℕ) (look : List ℕ → Option (List (List ℕ))) (s : DomainStrategy)
    (ctx : Context)
    → ctx.skip_dns_resolve ≡ true
    → first_context lower look s ctx ≡ ctx
skipped_context lower look as_is ctx h = refl
skipped_context lower look ip_if_non_match ctx h = refl
skipped_context lower look ip_on_demand ctx h = ap (λ b. if not b then with_dns look ctx else ctx) h

or_true : (a b c : Bool) → c ≡ true → (a || (b || c)) ≡ true
or_true a b c h = ground (arith, h)

skipped_second :
    (lower : List ℕ → List ℕ) (look : List ℕ → Option (List (List ℕ))) (r : Router) (ctx : Context)
    (o : Option Rule)
    → ctx.skip_dns_resolve ≡ true
    → or_second lower look r ctx o ≡ (o, ctx)
skipped_second lower look r ctx (some rule) h = refl
skipped_second lower look r ctx none h =
    let c : (not (is_if_non_match r.domain_strategy)
          || (length ctx.target_domain == 0 || ctx.skip_dns_resolve))
        ≡ true =
      or_true (not (is_if_non_match r.domain_strategy)) (length ctx.target_domain == 0)
        ctx.skip_dns_resolve h in
    rw (c) refl

-- A connection that asks for no lookup gets its rule, or none, without one: whatever a lookup would
-- say, the rule and the context are the first rule that applies to the context as it came.
pub pick_route_internal-skip :
    (lower : List ℕ → List ℕ) (lookup_ip : List ℕ → Option (List (List ℕ))) (r : Router)
    (ctx : Context)
    → ctx.skip_dns_resolve ≡ true
    → pick_route_internal lower lookup_ip r ctx ≡ (first_rule lower r.rules ctx, ctx)
unfolding pick_route_internal
pick_route_internal-skip lower lookup_ip r ctx h =
    ap (λ c. or_second lower lookup_ip r c (first_rule lower r.rules c))
      (skipped_context lower lookup_ip r.domain_strategy ctx h)
    ∙ skipped_second lower lookup_ip r ctx (first_rule lower r.rules ctx) h
