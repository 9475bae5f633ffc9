-- ===== src/Prelude/Texts.antt =====
-- Texts as the lists of their bytes: equality, prefixes and suffixes, as Go's package strings has them.
use Prim.Native.Nat.{ℕ, ◌-◌}
use mathlib.Core.Path.{◌≡◌, refl, sym, ap, ◌∙◌}
use mathlib.Core.Logic.{inl, inr}
use mathlib.Core.Bool.{Bool, true, false, ◌||◌}
use mathlib.Core.List.{List, [], ◌∷◌, ◌++◌, reverse, reverse-append, reverse-reverse}
use native.Mathlib.Omega.{arith}
use xray_core_python.Prelude.Tests.{◌==◌, ltb, if◌then◌else◌, Bool-cases, ==_refl}
use xray_core_python.Prelude.Lists.{
  length, take, drop, drop-append, length-append, take-append-drop,
}

abbrev pub same_bytes : List ℕ → List ℕ → Bool
same_bytes [] [] = true
same_bytes (x ∷ xs) (y ∷ ys) = let rest = same_bytes xs ys in if x == y then rest else false
same_bytes _ _ = false

-- `strings.HasPrefix`, with the prefix first.
abbrev pub has_prefix : List ℕ → List ℕ → Bool
has_prefix [] s = true
has_prefix (c ∷ p) [] = false
has_prefix (c ∷ p) (d ∷ s) = let rest = has_prefix p s in if c == d then rest else false

-- `strings.HasSuffix`, with the suffix first.
abbrev pub has_suffix : List ℕ → List ℕ → Bool
has_suffix p s =
    if ltb (length s) (length p) then false else same_bytes (drop (length s - length p) s) p

-- `strings.Contains`, with the part first.
abbrev pub contains : List ℕ → List ℕ → Bool
contains p [] = has_prefix p []
contains p (c ∷ s) = has_prefix p (c ∷ s) || contains p s

pub same_bytes_refl : (xs : List ℕ) → same_bytes xs xs ≡ true
same_bytes_refl [] = refl
same_bytes_refl (x ∷ xs) = rw (==_refl x) (same_bytes_refl xs)

pub same_bytes→≡ : (xs ys : List ℕ) → same_bytes xs ys ≡ true → xs ≡ ys
same_bytes→≡ [] [] h = refl
same_bytes→≡ [] (y ∷ ys) h = cc
same_bytes→≡ (x ∷ xs) [] h = cc
same_bytes→≡ (x ∷ xs) (y ∷ ys) h = ground (arith, same_bytes→≡ xs ys)

-- The rest of a text behind a prefix.
pub has_prefix→append : (p s : List ℕ) → has_prefix p s ≡ true → (rest : List ℕ) × (s ≡ p ++ rest)
has_prefix→append [] s h = (s, refl)
has_prefix→append (c ∷ p) [] h = absurd (cc)
has_prefix→append (c ∷ p) (d ∷ s) h = elim (Bool-cases (c == d)) [
  | inl e ↦
      let (rest, f) = has_prefix→append p s (ground (arith, h, e)) in (rest, ground (arith, e, f))
  | inr e ↦ absurd (ground arith)
]

pub append→has_prefix : (p rest : List ℕ) → has_prefix p (p ++ rest) ≡ true
append→has_prefix [] rest = refl
append→has_prefix (c ∷ p) rest = rw (==_refl c) (append→has_prefix p rest)

-- A suffix is a prefix, read backwards.
pub has_suffix-append : (q p : List ℕ) → has_suffix p (q ++ p) ≡ true
has_suffix-append q p =
    let l = length-append q p in
    let f : ltb (length (q ++ p)) (length p) ≡ false = ground arith in
    let n : length (q ++ p) - length p ≡ length q = omega arith in
    rw (f, n, drop-append (length q) q p refl) (same_bytes_refl p)

pub has_suffix→append : (p s : List ℕ) → has_suffix p s ≡ true → (q : List ℕ) × (s ≡ q ++ p)
has_suffix→append p s h =
    let n = length s - length p in
    let e : same_bytes (drop n s) p ≡ true = ground (arith, h) in
    (take n s, sym (take-append-drop n s) ∙ ap (λ t. take n s ++ t) (same_bytes→≡ (drop n s) p e))

pub has_suffix-reverse : (p s : List ℕ) → has_suffix p s ≡ has_prefix (reverse p) (reverse s)
has_suffix-reverse p s = elim (Bool-cases (has_suffix p s)) [
  | inl e ↦
      let (q, f) = has_suffix→append p s e in
      e
      ∙ sym (
          ap (has_prefix (reverse p)) (ap reverse f ∙ reverse-append q p)
          ∙ append→has_prefix (reverse p) (reverse q))
  | inr e ↦ elim (Bool-cases (has_prefix (reverse p) (reverse s))) [
    | inl g ↦
        let (rest, f) = has_prefix→append (reverse p) (reverse s) g in
        let back : s ≡ reverse rest ++ p =
          sym (reverse-reverse s)
          ∙ ap reverse f
          ∙ reverse-append (reverse p) rest
          ∙ ap (λ t. reverse rest ++ t) (reverse-reverse p) in
        ap (has_suffix p) back ∙ has_suffix-append (reverse rest) p ∙ sym g
    | inr g ↦ e ∙ sym g
  ]
]
