-- ===== src/Router/Turns.antt =====
-- The strategy that takes outbounds in turn.
use native.Mathlib.Nat.{mod_self, mod-eq_of_lt}
use xray_core_python.Prelude.{
  ℕ, zero, suc, ◌+◌, ◌-◌, ◌%◌, ◌<◌, ◌≤◌, ◌≡◌, refl, sym, ap, ap₂, ◌∙◌, none, List, [], ◌∷◌, ◌++◌,
  length, take, drop, length-drop, arith, take-all,
}
use xray_core_python.Router.Balancers.{tag_at, pick_in_turn}

-- Some picks one after the other, with no report: the tags, and the index after them.
abbrev pub turns : ℕ → List (List ℕ) → ℕ → List (List ℕ) × ℕ
turns zero tags i = ([], i)
turns (suc k) tags i =
    let (tag, next) = pick_in_turn none tags i in
    let (rest, last) = turns k tags next in (tag ∷ rest, last)

drop_at : (i : ℕ) (ts : List (List ℕ)) → i < length ts → drop i ts ≡ tag_at i ts ∷ drop (suc i) ts
drop_at i [] h = absurd (omega (arith, h))
drop_at zero (t ∷ ts) h = refl
drop_at (suc i) (t ∷ ts) h = drop_at i ts (omega (arith, h))

pick_in_turn_at :
    (ts : List (List ℕ)) (i : ℕ)
    → i < length ts
    → pick_in_turn none ts i ≡ (tag_at i ts, (i + 1) % length ts)
unfolding pick_in_turn
pick_in_turn_at [] i h = absurd (omega (arith, h))
pick_in_turn_at (t ∷ ts) i h =
    ap (λ k. (tag_at k (t ∷ ts), (i + 1) % length (t ∷ ts))) (mod-eq_of_lt h)

turns-suc :
    (k : ℕ) (ts : List (List ℕ)) (i : ℕ)
    → i < length ts
    → turns (suc k) ts i
      ≡ (tag_at i ts ∷ (turns k ts ((i + 1) % length ts)).0, (turns k ts ((i + 1) % length ts)).1)
turns-suc k ts i h =
    ap (λ p. (p.0 ∷ (turns k ts p.1).0, (turns k ts p.1).1)) (pick_in_turn_at ts i h)

-- Picks that do not go past the last tag.
turns_within :
    (k : ℕ) (ts : List (List ℕ)) (i : ℕ)
    → i + suc k ≤ length ts
    → turns (suc k) ts i ≡ (take (suc k) (drop i ts), (i + suc k) % length ts)
turns_within zero ts i h =
    turns-suc zero ts i (omega (arith, h))
    ∙ ap (λ t. (take 1 t, (i + 1) % length ts)) (sym (drop_at i ts (omega (arith, h))))
turns_within (suc k) ts i h =
    let e = mod-eq_of_lt {n = i + 1} {m = length ts} (omega (arith, h)) in
    let f : i + 1 ≡ suc i = omega arith in
    let ih = turns_within k ts (suc i) (omega (arith, h)) in
    let n : suc i + suc k ≡ i + suc (suc k) = omega arith in
    turns-suc (suc k) ts i (omega (arith, h))
    ∙ ap (λ j. (tag_at i ts ∷ (turns (suc k) ts j).0, (turns (suc k) ts j).1)) (e ∙ f)
    ∙ ap (λ p. (tag_at i ts ∷ p.0, p.1)) ih
    ∙ ap (λ t. (take (suc (suc k)) t, (suc i + suc k) % length ts))
        (sym (drop_at i ts (omega (arith, h))))
    ∙ ap (λ m. (take (suc (suc k)) (drop i ts), m % length ts)) n

turns_first : (ts : List (List ℕ)) (i : ℕ) → i < length ts → turns i ts 0 ≡ (take i ts, i)
turns_first ts zero h = refl
turns_first ts (suc i) h =
    turns_within i ts 0 (omega (arith, h))
    ∙ ap (λ m. (take (suc i) ts, m))
        (ap (λ m. m % length ts) (omega arith) ∙ mod-eq_of_lt {n = suc i} {m = length ts} h)

turns-add :
    (a b : ℕ) (ts : List (List ℕ)) (i : ℕ)
    → turns (a + b) ts i
      ≡ ((turns a ts i).0 ++ (turns b ts (turns a ts i).1).0, (turns b ts (turns a ts i).1).1)
turns-add zero b ts i = let n : 0 + b ≡ b = omega arith in ap (λ m. turns m ts i) n
turns-add (suc a) b ts i =
    let p = pick_in_turn none ts i in
    let n : suc a + b ≡ suc (a + b) = omega arith in
    ap (λ m. turns m ts i) n ∙ ap (λ q. (p.0 ∷ q.0, q.1)) (turns-add a b ts p.1)

-- As many picks in turn as there are outbounds, with no report on them and the turn at one of them,
-- take each of them once, in their order from the one whose turn it is and around, and leave the turn
-- where it was.
pub turns-length :
    (ts : List (List ℕ)) (i : ℕ)
    → i < length ts
    → turns (length ts) ts i ≡ (drop i ts ++ take i ts, i)
turns-length ts i h =
    let k = length ts - i - 1 in
    let n : suc k + i ≡ length ts = omega (arith, h) in
    let m : i + suc k ≡ length ts = omega (arith, h) in
    let l : length (drop i ts) ≡ suc k = omega (arith, h, length-drop i ts) in
    let first : turns (suc k) ts i ≡ (drop i ts, 0) =
      turns_within k ts i (omega (arith, m))
      ∙ ap₂ (λ x y. (x, y))
          (ap (λ j. take j (drop i ts)) (sym l)
            ∙ take-all (length (drop i ts)) (drop i ts) (omega arith))
          (ap (λ j. j % length ts) m ∙ mod_self (length ts)) in
    ap (λ j. turns j ts i) (sym n)
    ∙ turns-add (suc k) i ts i
    ∙ ap (λ p. (p.0 ++ (turns i ts p.1).0, (turns i ts p.1).1)) first
    ∙ ap (λ p. (drop i ts ++ p.0, p.1)) (turns_first ts i h)
