-- ===== src/Router/Tags.antt =====
-- The tags of a router's rules and of their balancers: each rule's is its own, and its balancer is there.
use xray_core_python.Prelude.{
  ℕ, ◌≡◌, refl, sym, ap, ◌∙◌, Bool, true, false, ◌&&◌, ◌||◌, not, Option, none, some, inl, inr,
  List, [], ◌∷◌, ◌++◌, length, ◌==◌, arith, Bool-cases, is_some, same_bytes, same_bytes_refl,
  same_bytes→≡,
}
use xray_core_python.Router.Balancers.{Balancer}
use xray_core_python.Router.State.{
  Rule, Router, balancer_of, put_balancer, any_rule, rule_exists, without_rule,
}
use xray_core_python.Router.Routes.{set_balancer}

-- Rules of which no two have one tag, but for the empty one.
abbrev pub distinct_tags : List Rule → Bool
distinct_tags [] = true
distinct_tags (r ∷ rs) = let rest = distinct_tags rs in not (rule_exists r.rule_tag rs) && rest

abbrev pub is_known : List (List ℕ × Balancer) → Option (List ℕ) → Bool
is_known bs none = true
is_known bs (some tag) = is_some (balancer_of tag bs)

-- Rules that have their balancers.
abbrev pub all_known : List (List ℕ × Balancer) → List Rule → Bool
all_known bs [] = true
all_known bs (r ∷ rs) = let rest = all_known bs rs in is_known bs r.balancer && rest

pub record IsWellFormed (r : Router) : Type 0 where
  pub distinct : distinct_tags r.rules ≡ true
  pub known : all_known r.balancers r.rules ≡ true

same_bytes_sym : (a b : List ℕ) → same_bytes a b ≡ same_bytes b a
same_bytes_sym a b = elim (Bool-cases (same_bytes a b)) [
  | inl e ↦ e ∙ sym (ap (λ t. same_bytes t a) (sym (same_bytes→≡ a b e)) ∙ same_bytes_refl a)
  | inr e ↦ elim (Bool-cases (same_bytes b a)) [
    | inl f ↦ ap (λ t. same_bytes t b) (sym (same_bytes→≡ b a f)) ∙ same_bytes_refl b ∙ sym f
    | inr f ↦ e ∙ sym f
  ]
]

any_rule-add :
    (tag : List ℕ) (rs : List Rule) (r : Rule)
    → any_rule tag (rs ++ (r ∷ [])) ≡ (any_rule tag rs || same_bytes r.rule_tag tag)
any_rule-add tag [] r = elim (Bool-cases (same_bytes r.rule_tag tag)) [
  | inl e ↦ rw (e) refl
  | inr e ↦ rw (e) refl
]
any_rule-add tag (x ∷ rs) r = elim (Bool-cases (same_bytes x.rule_tag tag)) [
  | inl e ↦ rw (e) refl
  | inr e ↦ rw (e) (any_rule-add tag rs r)
]

-- A tag is looked for only when it is not empty.
rule_exists-add :
    (tag : List ℕ) (rs : List Rule) (r : Rule)
    → rule_exists tag (rs ++ (r ∷ []))
      ≡ (rule_exists tag rs || (not (length tag == 0) && same_bytes r.rule_tag tag))
rule_exists-add tag rs r = elim (Bool-cases (length tag == 0)) [
  | inl e ↦ rw (e) refl
  | inr e ↦ rw (e) (any_rule-add tag rs r)
]

no_rule : (tag : List ℕ) → rule_exists tag [] ≡ false
no_rule tag = elim (Bool-cases (length tag == 0)) [ inl e ↦ rw (e) refl | inr e ↦ rw (e) refl ]

rule_exists-cons :
    (tag : List ℕ) (r : Rule) (rs : List Rule)
    → rule_exists tag (r ∷ rs)
      ≡ ((not (length tag == 0) && same_bytes r.rule_tag tag) || rule_exists tag rs)
rule_exists-cons tag r rs = elim (Bool-cases (length tag == 0)) [
  | inl e ↦ rw (e) refl
  | inr e ↦ elim (Bool-cases (same_bytes r.rule_tag tag)) [
    | inl f ↦ rw (e, f) refl
    | inr f ↦ rw (e, f) refl
  ]
]

-- Tags that are apart one way are apart the other way.
tags_apart :
    (a b : List ℕ) (c : Bool)
    → ((not (length a == 0) && same_bytes b a) || c) ≡ false
    → (not (length b == 0) && same_bytes a b) ≡ false
tags_apart a b c h = elim (Bool-cases (same_bytes a b)) [
  | inl e ↦
      let n = ap length (same_bytes→≡ a b e) in
      let f = same_bytes_sym a b in ground (arith, h, e, f, n)
  | inr e ↦ ground (arith, e)
]

pub distinct_tags-add :
    (rs : List Rule) (r : Rule)
    → distinct_tags rs ≡ true
    → rule_exists r.rule_tag rs ≡ false
    → distinct_tags (rs ++ (r ∷ [])) ≡ true
distinct_tags-add [] r h e = rw (no_rule r.rule_tag) refl
distinct_tags-add (x ∷ rs) r h e =
    let c = rule_exists-cons r.rule_tag x rs in
    let apart = tags_apart r.rule_tag x.rule_tag (rule_exists r.rule_tag rs) (sym c ∙ e) in
    let later : rule_exists r.rule_tag rs ≡ false = ground (arith, c, e) in
    let rest = distinct_tags-add rs r (ground (arith, h)) later in
    rw (rule_exists-add x.rule_tag rs r, apart, rest) (ground (arith, h))

pub all_known-add :
    (bs : List (List ℕ × Balancer)) (rs : List Rule) (r : Rule)
    → all_known bs rs ≡ true
    → is_known bs r.balancer ≡ true
    → all_known bs (rs ++ (r ∷ [])) ≡ true
all_known-add bs [] r h e = rw (e) refl
all_known-add bs (x ∷ rs) r h e =
    let rest = all_known-add bs rs r (ground (arith, h)) e in ground (arith, h, rest)

-- Rules keep their balancers when one is put.
is_known-put_balancer :
    (bs : List (List ℕ × Balancer)) (tag : List ℕ) (b : Balancer) (o : Option (List ℕ))
    → is_known bs o ≡ true
    → is_known (put_balancer tag b bs) o ≡ true
is_known-put_balancer bs tag b none h = refl
is_known-put_balancer bs tag b (some t) h = elim (Bool-cases (same_bytes tag t)) [
  | inl e ↦ rw (e) refl
  | inr e ↦ rw (e) h
]

pub all_known-put_balancer :
    (bs : List (List ℕ × Balancer)) (tag : List ℕ) (b : Balancer) (rs : List Rule)
    → all_known bs rs ≡ true
    → all_known (put_balancer tag b bs) rs ≡ true
all_known-put_balancer bs tag b [] h = refl
all_known-put_balancer bs tag b (r ∷ rs) h =
    let one = is_known-put_balancer bs tag b r.balancer (ground (arith, h)) in
    let rest = all_known-put_balancer bs tag b rs (ground (arith, h)) in ground (arith, one, rest)

-- A balancer that is set is not another one.
balancer_of-set_balancer :
    (bs : List (List ℕ × Balancer)) (tag t : List ℕ) (b : Balancer)
    → is_some (balancer_of t (set_balancer tag b bs)) ≡ is_some (balancer_of t bs)
balancer_of-set_balancer [] tag t b = refl
balancer_of-set_balancer ((u, old) ∷ bs) tag t b = elim (Bool-cases (same_bytes u tag)) [
  | inl e ↦ elim (Bool-cases (same_bytes u t)) [ inl f ↦ rw (e, f) refl | inr f ↦ rw (e, f) refl ]
  | inr e ↦ elim (Bool-cases (same_bytes u t)) [
    | inl f ↦ rw (e, f) refl
    | inr f ↦ rw (e, f) (balancer_of-set_balancer bs tag t b)
  ]
]

pub all_known-set_balancer :
    (bs : List (List ℕ × Balancer)) (tag : List ℕ) (b : Balancer) (rs : List Rule)
    → all_known (set_balancer tag b bs) rs ≡ all_known bs rs
all_known-set_balancer bs tag b [] = refl
all_known-set_balancer bs tag b (r ∷ rs) =
    rw (known_same r.balancer, all_known-set_balancer bs tag b rs) refl
  where
    known_same : (o : Option (List ℕ)) → is_known (set_balancer tag b bs) o ≡ is_known bs o
    known_same none = refl
    known_same (some t) = balancer_of-set_balancer bs tag t b

-- Fewer rules have fewer tags.
any_rule-without_rule :
    (t tag : List ℕ) (rs : List Rule)
    → any_rule t rs ≡ false
    → any_rule t (without_rule tag rs) ≡ false
any_rule-without_rule t tag [] h = refl
any_rule-without_rule t tag (r ∷ rs) h =
    let rest = any_rule-without_rule t tag rs (ground (arith, h)) in
    elim (Bool-cases (same_bytes r.rule_tag tag)) [
      | inl e ↦ rw (e) rest
      | inr e ↦ rw (e) (ground (arith, h, rest))
    ]

rule_exists-without_rule :
    (t tag : List ℕ) (rs : List Rule)
    → rule_exists t rs ≡ false
    → rule_exists t (without_rule tag rs) ≡ false
rule_exists-without_rule t tag rs h = elim (Bool-cases (length t == 0)) [
  | inl e ↦ rw (e) refl
  | inr e ↦ rw (e) (any_rule-without_rule t tag rs (ground (arith, h, e)))
]

pub distinct_tags-without_rule :
    (tag : List ℕ) (rs : List Rule)
    → distinct_tags rs ≡ true
    → distinct_tags (without_rule tag rs) ≡ true
distinct_tags-without_rule tag [] h = refl
distinct_tags-without_rule tag (r ∷ rs) h =
    let rest = distinct_tags-without_rule tag rs (ground (arith, h)) in
    elim (Bool-cases (same_bytes r.rule_tag tag)) [
      | inl e ↦ rw (e) rest
      | inr e ↦
          let gone = rule_exists-without_rule r.rule_tag tag rs (ground (arith, h)) in
          rw (e, gone, rest) refl
    ]

pub all_known-without_rule :
    (bs : List (List ℕ × Balancer)) (tag : List ℕ) (rs : List Rule)
    → all_known bs rs ≡ true
    → all_known bs (without_rule tag rs) ≡ true
all_known-without_rule bs tag [] h = refl
all_known-without_rule bs tag (r ∷ rs) h =
    let rest = all_known-without_rule bs tag rs (ground (arith, h)) in
    elim (Bool-cases (same_bytes r.rule_tag tag)) [
      | inl e ↦ rw (e) rest
      | inr e ↦ rw (e) (ground (arith, h, rest))
    ]
