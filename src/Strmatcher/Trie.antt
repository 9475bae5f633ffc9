-- ===== src/Strmatcher/Trie.antt =====
-- The tries of domains against the paths of labels that were added to them.
use xray_core_python.Prelude.{
  ℕ, ◌≡◌, refl, sym, subst, ◌∙◌, Bool, true, false, ◌&&◌, ◌||◌, List, [], ◌∷◌, arith, Bool-cases,
  Option-cases, inl, inr, same_bytes, same_bytes_refl, same_bytes→≡,
}
use xray_core_python.Strmatcher.{
  TrieNode, node, Children, no_children, find_child, node_value, children_of, put_child, next_node,
  add_labels, any_label,
}

-- A path of labels that another one begins with.
abbrev pub path_prefix : List (List ℕ) → List (List ℕ) → Bool
path_prefix [] ls = true
path_prefix (l ∷ p) [] = false
path_prefix (l ∷ p) (k ∷ ls) = same_bytes l k && path_prefix p ls

-- A path that is found on the way down: it has a label, and the labels begin with it.
abbrev pub is_met : List (List ℕ) → List (List ℕ) → Bool
is_met [] ls = false
is_met (l ∷ p) ls = path_prefix (l ∷ p) ls

module _ {A : Type 0} (new : A) (found : A → Bool) (unset : found new ≡ false) (hit : Bool) where
  pub any_label_new : (ls : List (List ℕ)) → any_label found ls (node new no_children) ≡ false
  unfolding any_label
  any_label_new [] = refl
  any_label_new (l ∷ ls) = refl

  any_label_step :
      (l : List ℕ) (ls : List (List ℕ)) (a : A) (cs : Children A)
      → any_label found (l ∷ ls) (node a cs) ≡ (
          found (node_value (next_node new (find_child l cs)))
          || any_label found ls (next_node new (find_child l cs)))
  unfolding any_label
  any_label_step l ls a cs = elim (Option-cases (find_child l cs)) [
    | inl e ↦ rw (e, any_label, unset, any_label_new ls) refl
    | inr (t, e) ↦ elim (Bool-cases (found (node_value t))) [
      | inl f ↦ rw (e, any_label, f) refl
      | inr f ↦ rw (e, any_label, f) refl
    ]
  ]

  -- Another value at a node does not show on the way down from it.
  any_label_value :
      (ls : List (List ℕ)) (a : A) (t : TrieNode A)
      → any_label found ls (node a (children_of t)) ≡ any_label found ls t
  unfolding any_label
  any_label_value [] a (node b cs) = refl
  any_label_value (l ∷ ls) a (node b cs) = refl

  met_or : (a b c : Bool) → (a || ((b && hit) || c)) ≡ ((b && hit) || (a || c))
  met_or a b c = ground arith

  hit_or : (a b : Bool) → ((hit || a) || b) ≡ (hit || (a || b))
  hit_or a b = ground arith

  -- Where the path goes the same way as the labels.
  at_same :
      (f : A → A) (l : List ℕ) (p ls : List (List ℕ)) (a : A) (cs : Children A)
      → ((b : A) → found (f b) ≡ (hit || found b))
      → let u = next_node new (find_child l cs) in
        (any_label found ls (add_labels new f p u) ≡ ((is_met p ls && hit) || any_label found ls u))
        → any_label found (l ∷ ls) (node a (put_child l (add_labels new f p u) cs))
          ≡ (((same_bytes l l && path_prefix p ls) && hit) || any_label found (l ∷ ls) (node a cs))
  unfolding add_labels
  at_same f l [] ls a cs h ih =
      let u = next_node new (find_child l cs) in
      any_label_step l ls a (put_child l (add_labels new f [] u) cs)
      ∙ rw
          (
            same_bytes_refl l,
            h (node_value u),
            any_label_value ls (f (node_value u)) u,
            any_label_step l ls a cs,
          )
          (hit_or (found (node_value u)) (any_label found ls u))
  at_same f l (m ∷ p) ls a cs h ih =
      let u = next_node new (find_child l cs) in
      any_label_step l ls a (put_child l (add_labels new f (m ∷ p) u) cs)
      ∙ rw (same_bytes_refl l, ih, any_label_step l ls a cs)
          (met_or (found (node_value u)) (path_prefix (m ∷ p) ls) (any_label found ls u))

  pub any_label-add_labels :
      (f : A → A) (p ls : List (List ℕ)) (t : TrieNode A)
      → ((a : A) → found (f a) ≡ (hit || found a))
      → any_label found ls (add_labels new f p t) ≡ ((is_met p ls && hit) || any_label found ls t)
  unfolding add_labels
  any_label-add_labels f [] ls t h = any_label_value ls (f (node_value t)) t
  any_label-add_labels f (l ∷ p) [] (node a cs) h = unfold any_label in refl
  any_label-add_labels f (l ∷ p) (k ∷ ls) (node a cs) h = elim (Bool-cases (same_bytes l k)) [
    | inl e ↦
        subst
          (λ m.
            any_label found (m ∷ ls)
              (node a (put_child l (add_labels new f p (next_node new (find_child l cs))) cs))
            ≡ (((same_bytes l m && path_prefix p ls) && hit)
                || any_label found (m ∷ ls) (node a cs)))
          (same_bytes→≡ l k e)
          (at_same f l p ls a cs h
            (any_label-add_labels f p ls (next_node new (find_child l cs)) h))
    | inr e ↦
        any_label_step k ls a
          (put_child l (add_labels new f p (next_node new (find_child l cs))) cs)
        ∙ rw (e) (sym (any_label_step k ls a cs))
  ]
