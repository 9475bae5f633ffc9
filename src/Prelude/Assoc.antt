-- ===== src/Prelude/Assoc.antt =====
-- Maps with numbers as keys, as association lists.
use Prim.Native.Nat.{ℕ}
use mathlib.Core.Path.{◌≡◌, refl}
use mathlib.Core.Logic.{inl, inr}
use mathlib.Core.Option.{Option, none, some}
use mathlib.Core.List.{List, [], ◌∷◌}
use native.Mathlib.Omega.{arith}
use xray_core_python.Prelude.Tests.{◌==◌, if◌then◌else◌, Bool-cases}

module _ {ℓ} {A : Type ℓ} where
  abbrev pub lookup : ℕ → List (ℕ × A) → Option A
  lookup k [] = none
  lookup k ((i, v) ∷ m) = let rest = lookup k m in if i == k then some v else rest

  abbrev pub erase : ℕ → List (ℕ × A) → List (ℕ × A)
  erase k [] = []
  erase k ((i, v) ∷ m) = let rest = erase k m in if i == k then rest else (i, v) ∷ rest

  -- `m[k] = v`
  abbrev pub insert : ℕ → A → List (ℕ × A) → List (ℕ × A)
  insert k v m = (k, v) ∷ erase k m

  pub lookup-erase :
      (k i : ℕ) (m : List (ℕ × A)) → lookup k (erase i m) ≡ (if i == k then none else lookup k m)
  lookup-erase k i [] = elim (Bool-cases (i == k)) [ inl e ↦ rw e refl | inr e ↦ rw e refl ]
  lookup-erase k i ((j, v) ∷ m) = ground (arith, lookup-erase k i m)

  pub lookup-insert :
      (k i : ℕ) (v : A) (m : List (ℕ × A))
      → lookup k (insert i v m) ≡ (if i == k then some v else lookup k m)
  lookup-insert k i v m = ground (arith, lookup-erase k i m)

  pub erase_missing : (k : ℕ) (m : List (ℕ × A)) → lookup k m ≡ none → erase k m ≡ m
  erase_missing k [] h = refl
  erase_missing k ((j, v) ∷ m) h = ground (arith, erase_missing k m)
