-- ===== src/Router/Reloading.antt =====
-- The operations of a router: what they keep of its tags, and what a failed reload leaves.
use xray_core_python.Prelude.{
  ℕ, ◌≡◌, refl, sym, ap, subst, ◌∙◌, Bool, true, false, Option, none, some, ◌⊎◌, inl, inr, List, [],
  ◌∷◌, ◌++◌, append_assoc, append-nil, length, ◌==◌, if◌then◌else◌, Bool-cases, is_some,
}
use xray_core_python.Router.Conditions.{Condition}
use xray_core_python.Router.Balancers.{Balancer, BalancingRule}
use xray_core_python.Router.Rules.{RoutingRule}
use xray_core_python.Router.State.{
  Rule, Router, RouterConfig, RouterError, duplicate_balancer, bad_balancer, no_balancer,
  balancer_of, put_balancer, rule_exists, next_balancer, make_rule, next_rule, kept, with_rules,
  add_balancers, add_rules, with_balancers, reload_rules,
}
use xray_core_python.Router.Tags.{
  is_known, distinct_tags, all_known, IsWellFormed, distinct_tags-add, all_known-add,
  all_known-put_balancer,
}

-- A rule as its configuration asks for it: its tags, the conditions that were built of it, and the
-- balancer that it names, which is there.
pub record Made (rr : RoutingRule) (bs : List (List ℕ × Balancer)) (o : Option (List Condition))
    (r : Rule) : Type 0 where
  pub same_tag : r.rule_tag ≡ rr.rule_tag
  pub same_outbound : r.outbound_tag ≡ rr.tag
  pub same_conditions : o ≡ some r.conditions
  pub same_balancer :
      r.balancer ≡ (if length rr.balancing_tag == 0 then none else some rr.balancing_tag)
  pub has_balancer : is_known bs r.balancer ≡ true

make_rule-Made :
    (rr : RoutingRule) (bs : List (List ℕ × Balancer)) (o : Option (List Condition)) (r : Rule)
    → make_rule rr bs o ≡ inl r
    → Made rr bs o r
make_rule-Made rr bs none r h = absurd (cc)
make_rule-Made rr bs (some cs) r h = elim (Bool-cases (length rr.balancing_tag == 0)) [
  | inl e ↦
      let plain : Rule = record {
        outbound_tag = rr.tag;
        rule_tag = rr.rule_tag;
        balancer = none;
        conditions = cs;
      } in
      let g : make_rule rr bs (some cs) ≡ inl plain = rw (e) refl in
      let same : plain ≡ r = cc in
      subst (Made rr bs (some cs)) same (record {
        same_tag = refl;
        same_outbound = refl;
        same_conditions = refl;
        same_balancer = rw (e) refl;
        has_balancer = refl;
      })
  | inr e ↦ elim (Bool-cases (is_some (balancer_of rr.balancing_tag bs))) [
    | inl f ↦
        let balanced_rule : Rule = record {
          outbound_tag = rr.tag;
          rule_tag = rr.rule_tag;
          balancer = some rr.balancing_tag;
          conditions = cs;
        } in
        let g : make_rule rr bs (some cs) ≡ inl balanced_rule = rw (e, f) refl in
        let same : balanced_rule ≡ r = cc in
        subst (Made rr bs (some cs)) same (record {
          same_tag = refl;
          same_outbound = refl;
          same_conditions = refl;
          same_balancer = rw (e) refl;
          has_balancer = f;
        })
    | inr f ↦ let g : make_rule rr bs (some cs) ≡ inr no_balancer = rw (e, f) refl in absurd (cc)
  ]
]

next_balancer-known :
    (found built : Option Balancer) (rs : List Rule)
    (failed : RouterError → List (List ℕ × Balancer) × Option RouterError)
    (go : Balancer → List (List ℕ × Balancer) × Option RouterError)
    → ((e : RouterError) → all_known (failed e).0 rs ≡ true)
    → ((b : Balancer) → all_known (go b).0 rs ≡ true)
    → all_known (next_balancer found built failed go).0 rs ≡ true
next_balancer-known (some old) built rs failed go h k = h duplicate_balancer
next_balancer-known none none rs failed go h k = h bad_balancer
next_balancer-known none (some b) rs failed go h k = k b

-- Rules of which the tags are distinct and the balancers are there.
pub record Sound (bs : List (List ℕ × Balancer)) (rs : List Rule) : Type 0 where
  pub distinct : distinct_tags rs ≡ true
  pub known : all_known bs rs ≡ true

next_rule_made :
    (b : Bool) (made : Rule ⊎ RouterError) (go : Rule → List Rule ⊎ RouterError) (out : List Rule)
    → next_rule b made go ≡ inl out
    → (r : Rule) × ((b ≡ false) × ((made ≡ inl r) × (go r ≡ inl out)))
next_rule_made true made go out h = absurd (cc)
next_rule_made false (inr e) go out h = absurd (cc)
next_rule_made false (inl r) go out h = (r, (refl, (refl, h)))

module _ (build : BalancingRule → Option Balancer)
    (condition : RoutingRule → Option (List Condition)) where
  pub all_known-add_balancers :
      (brs : List BalancingRule) (bs : List (List ℕ × Balancer)) (rs : List Rule)
      → all_known bs rs ≡ true
      → all_known (add_balancers build condition brs bs).0 rs ≡ true
  unfolding add_balancers
  all_known-add_balancers [] bs rs h = h
  all_known-add_balancers (br ∷ brs) bs rs h =
      next_balancer-known (balancer_of br.tag bs) (build br) rs (λ e. (bs, some e))
        (λ b. add_balancers build condition brs (put_balancer br.tag b bs)) (λ e. h)
        (λ b.
          all_known-add_balancers brs (put_balancer br.tag b bs) rs
            (all_known-put_balancer bs br.tag b rs h))

  -- Rules as the configuration asks for them, one by one.
  pub data AreMade (bs : List (List ℕ × Balancer)) : List RoutingRule → List Rule → Type 0 where
    no_rule : AreMade bs [] []
    one_rule :
        (rr : RoutingRule) (r : Rule) (rrs : List RoutingRule) (rs : List Rule)
        → Made rr bs (condition rr) r
        → AreMade bs rrs rs
        → AreMade bs (rr ∷ rrs) (r ∷ rs)

  -- A loop that ended well has made all rules, and put them behind the old ones.
  pub add_rules-AreMade :
      (rrs : List RoutingRule) (bs : List (List ℕ × Balancer)) (rs out : List Rule)
      → add_rules build condition rrs bs rs ≡ inl out
      → (new : List Rule) × ((out ≡ rs ++ new) × AreMade bs rrs new)
  unfolding add_rules
  add_rules-AreMade [] bs rs out e =
      let same : rs ≡ out = cc in ([], (sym same ∙ sym (append-nil rs), no_rule))
  add_rules-AreMade (rr ∷ rrs) bs rs out e =
      let (r, (_, (made, rest))) =
        next_rule_made (rule_exists rr.rule_tag rs) (make_rule rr bs (condition rr))
          (λ r. add_rules build condition rrs bs (rs ++ (r ∷ []))) out e in
      let (new, (same, others)) = add_rules-AreMade rrs bs (rs ++ (r ∷ [])) out rest in
      (
        r ∷ new,
        (
          same ∙ append_assoc rs (r ∷ []) new,
          one_rule rr r rrs new (make_rule-Made rr bs (condition rr) r made) others,
        ),
      )

  -- The rules of a loop that ended well are sound.
  pub add_rules-Sound :
      (rrs : List RoutingRule) (bs : List (List ℕ × Balancer)) (rs out : List Rule)
      → Sound bs rs
      → add_rules build condition rrs bs rs ≡ inl out
      → Sound bs out
  unfolding add_rules
  add_rules-Sound [] bs rs out h e = let same : rs ≡ out = cc in subst (Sound bs) same h
  add_rules-Sound (rr ∷ rrs) bs rs out h e =
      let (r, (new, (made, rest))) =
        next_rule_made (rule_exists rr.rule_tag rs) (make_rule rr bs (condition rr))
          (λ r. add_rules build condition rrs bs (rs ++ (r ∷ []))) out e in
      let m = make_rule-Made rr bs (condition rr) r made in
      let sound : Sound bs (rs ++ (r ∷ [])) = record {
        distinct = distinct_tags-add rs r h.distinct (ap (λ t. rule_exists t rs) m.same_tag ∙ new);
        known = all_known-add bs rs r h.known m.has_balancer;
      } in
      add_rules-Sound rrs bs (rs ++ (r ∷ [])) out sound rest

  with_rules-Sound :
      (r : Router) (bs : List (List ℕ × Balancer)) (o : List Rule ⊎ RouterError)
      → all_known bs r.rules ≡ true
      → distinct_tags r.rules ≡ true
      → ((rs : List Rule) → o ≡ inl rs → Sound bs rs)
      → IsWellFormed (with_rules r bs o).0
  with_rules-Sound r bs (inl rs) k d h =
      let s = h rs refl in record { distinct = s.distinct; known = s.known }
  with_rules-Sound r bs (inr e) k d h = record { distinct = d; known = k }

  with_balancers-Sound :
      (r : Router) (rrs : List RoutingRule) (found : List (List ℕ × Balancer) × Option RouterError)
      → all_known (found.0) r.rules ≡ true
      → distinct_tags r.rules ≡ true
      → IsWellFormed (with_balancers build condition r rrs found).0
  with_balancers-Sound r rrs (bs, some e) k d = record { distinct = d; known = k }
  with_balancers-Sound r rrs (bs, none) k d =
      with_rules-Sound r bs (add_rules build condition rrs bs r.rules) k d
        (λ rs e. add_rules-Sound rrs bs r.rules rs (record { distinct = d; known = k }) e)

  pub kept-IsWellFormed : (b : Bool) (r : Router) → IsWellFormed r → IsWellFormed (kept b r)
  kept-IsWellFormed true r h = h
  kept-IsWellFormed false r h = record { distinct = refl; known = refl }

  pub reload_rules-IsWellFormed :
      (config : RouterConfig) (should_append : Bool) (r : Router)
      → IsWellFormed r
      → IsWellFormed (reload_rules build condition config should_append r).0
  unfolding reload_rules
  reload_rules-IsWellFormed config should_append r h =
      let left = kept should_append r in
      let w = kept-IsWellFormed should_append r h in
      with_balancers-Sound left config.new_rules
        (add_balancers build condition config.balancing_rules left.balancers)
        (all_known-add_balancers config.balancing_rules left.balancers left.rules w.known)
        w.distinct
