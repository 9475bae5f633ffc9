-- ===== src/Kcp/Sending/Window.antt =====
-- The numbers in the sending window stay in order, and the loops that stop early rely on it.
use xray_core_python.Prelude.{
  ℕ, ◌+◌, ◌≤◌, ◌<◌, ◌≡◌, refl, sym, subst, ap, Bool, true, false, Option, none, some, List, [], ◌∷◌,
  ◌++◌, ◌==◌, leb, ltb, if◌then◌else◌, arith, Bool-cases, Option-cases, inl, inr,
}
use mathlib.Core.Option
use xray_core_python.Kcp.Segment.{DataSegment}
use xray_core_python.Kcp.Sending.{SendingWindow, drop_below, take_out, clear, remove}

abbrev pub numbers : List DataSegment → List ℕ
numbers [] = []
numbers (s ∷ l) = s.number ∷ numbers l

-- Strictly increasing numbers, from `lo` on and below `hi`.
abbrev pub IsAscending : ℕ → ℕ → List ℕ → Type 0
IsAscending lo hi [] = lo ≤ hi
IsAscending lo hi (n ∷ ns) = (lo ≤ n) × (n < hi) × IsAscending (n + 1) hi ns

abbrev pub contains : ℕ → List ℕ → Bool
contains n [] = false
contains n (m ∷ ns) = let rest = contains n ns in if m == n then true else rest

-- The numbers that are at least `una`, and those other than `n`.
abbrev pub at_least : ℕ → List ℕ → List ℕ
at_least una [] = []
at_least una (n ∷ ns) = let rest = at_least una ns in if leb una n then n ∷ rest else rest

abbrev pub without : ℕ → List ℕ → List ℕ
without n [] = []
without n (m ∷ ns) = let rest = without n ns in if m == n then rest else m ∷ rest

pub IsAscending-weaken :
    (lo lo' hi : ℕ) (ns : List ℕ) → lo' ≤ lo → IsAscending lo hi ns → IsAscending lo' hi ns
IsAscending-weaken lo lo' hi [] h a = omega arith
IsAscending-weaken lo lo' hi (n ∷ ns) h a = (omega arith, a.1, a.2)

pub IsAscending-le : (lo hi : ℕ) (ns : List ℕ) → IsAscending lo hi ns → lo ≤ hi
IsAscending-le lo hi [] a = a
IsAscending-le lo hi (n ∷ ns) a = omega arith

pub IsAscending-append :
    (lo hi : ℕ) (ns : List ℕ) → IsAscending lo hi ns → IsAscending lo (hi + 1) (ns ++ (hi ∷ []))
IsAscending-append lo hi [] a = omega arith
IsAscending-append lo hi (n ∷ ns) a = (a.0, omega arith, IsAscending-append (n + 1) hi ns a.2)

not_contains_below :
    (lo hi n : ℕ) (ns : List ℕ) → n < lo → IsAscending lo hi ns → contains n ns ≡ false
not_contains_below lo hi n [] h a = refl
not_contains_below lo hi n (m ∷ ns) h a =
    ground (arith, not_contains_below (m + 1) hi n ns (omega arith) a.2)

pub without_none : (n : ℕ) (ns : List ℕ) → contains n ns ≡ false → without n ns ≡ ns
without_none n [] h = refl
without_none n (m ∷ ns) h = ground (arith, without_none n ns)

pub IsAscending-without :
    (lo hi n : ℕ) (ns : List ℕ) → IsAscending lo hi ns → IsAscending lo hi (without n ns)
IsAscending-without lo hi n [] a = a
IsAscending-without lo hi n (m ∷ ns) a = elim (Bool-cases (m == n)) [
  | inl same ↦ rw same (
      IsAscending-weaken (m + 1) lo hi (without n ns) (omega arith)
        (IsAscending-without (m + 1) hi n ns a.2))
  | inr other ↦ rw other (a.0, a.1, IsAscending-without (m + 1) hi n ns a.2)
]

pub IsAscending-at_least :
    (lo hi una : ℕ) (ns : List ℕ) → IsAscending lo hi ns → IsAscending lo hi (at_least una ns)
IsAscending-at_least lo hi una [] a = a
IsAscending-at_least lo hi una (m ∷ ns) a = elim (Bool-cases (leb una m)) [
  | inl keep ↦ rw keep (a.0, a.1, IsAscending-at_least (m + 1) hi una ns a.2)
  | inr skip ↦ rw skip (
      IsAscending-weaken (m + 1) lo hi (at_least una ns) (omega arith)
        (IsAscending-at_least (m + 1) hi una ns a.2))
]

pub numbers-append : (xs ys : List DataSegment) → numbers (xs ++ ys) ≡ numbers xs ++ numbers ys
numbers-append [] ys = refl
numbers-append (x ∷ xs) ys = ap (λ t. x.number ∷ t) (numbers-append xs ys)

at_least_all :
    (una lo hi : ℕ) (ns : List ℕ) → una ≤ lo → IsAscending lo hi ns → at_least una ns ≡ ns
at_least_all una lo hi [] h a = refl
at_least_all una lo hi (m ∷ ns) h a =
    ground (arith, at_least_all una (m + 1) hi ns (omega arith) a.2)

numbers-drop_below :
    (una lo hi : ℕ) (l : List DataSegment)
    → IsAscending lo hi (numbers l)
    → numbers (drop_below una l) ≡ at_least una (numbers l)
unfolding drop_below
numbers-drop_below una lo hi [] a = refl
numbers-drop_below una lo hi (s ∷ l) a = elim (Bool-cases (leb una s.number)) [
  | inl keep ↦ rw (keep, at_least_all una (s.number + 1) hi (numbers l) (ground arith) a.2)
  | inr skip ↦ rw skip (numbers-drop_below una (s.number + 1) hi l a.2)
]

-- In an ordered window `Clear` takes out exactly the packets below `una`.
pub clear-at_least :
    (una lo hi : ℕ) (sw : SendingWindow)
    → IsAscending lo hi (numbers sw.cache)
    → numbers (clear una sw).cache ≡ at_least una (numbers sw.cache)
unfolding clear
clear-at_least una lo hi sw a = numbers-drop_below una lo hi sw.cache a

-- What is left of a window by `Remove`, and its answer.
abbrev TakesOut : ℕ → List DataSegment → Option (List DataSegment) → Type 0
TakesOut n l none = contains n (numbers l) ≡ false
TakesOut n l (some l') = (contains n (numbers l) ≡ true) × (numbers l' ≡ without n (numbers l))

TakesOut-cons :
    (n : ℕ) (s : DataSegment) (l : List DataSegment) (o : Option (List DataSegment))
    → (s.number == n) ≡ false
    → TakesOut n l o
    → TakesOut n (s ∷ l) (Option.map (λ l'. s ∷ l') o)
TakesOut-cons n s l none e t = rw e t
TakesOut-cons n s l (some l') e t = rw e (t.0, ap (λ ns. s.number ∷ ns) t.1)

TakesOut-head :
    (n : ℕ) (s : DataSegment) (l : List DataSegment)
    → (s.number == n) ≡ true
    → contains n (numbers l) ≡ false
    → TakesOut n (s ∷ l) (some l)
TakesOut-head n s l e h = rw e (refl, sym (without_none n (numbers l) h))

take_out-TakesOut :
    (n lo hi : ℕ) (l : List DataSegment)
    → IsAscending lo hi (numbers l)
    → TakesOut n l (take_out n l)
unfolding take_out
take_out-TakesOut n lo hi [] a = refl
take_out-TakesOut n lo hi (s ∷ l) a = elim (Bool-cases (ltb n s.number)) [
  | inl past ↦ rw past (
      let e : (s.number == n) ≡ false = ground arith in
      rw e (not_contains_below (s.number + 1) hi n (numbers l) (ground arith) a.2))
  | inr here ↦ elim (Bool-cases (s.number == n)) [
    | inl same ↦
        rw (here, same)
          (TakesOut-head n s l same
            (not_contains_below (s.number + 1) hi n (numbers l) (ground arith) a.2))
    | inr other ↦
        rw (here, other)
          (TakesOut-cons n s l (take_out n l) other (take_out-TakesOut n (s.number + 1) hi l a.2))
  ]
]

-- In an ordered window `Remove` finds a packet exactly where the window holds its number, and
-- takes that number out and no other.
pub remove-without :
    (n lo hi : ℕ) (sw : SendingWindow)
    → IsAscending lo hi (numbers sw.cache)
    → let (sw', removed) = remove n sw in
      (removed ≡ contains n (numbers sw.cache)) × (numbers sw'.cache ≡ without n (numbers sw.cache))
unfolding remove
remove-without n lo hi sw a = elim (Option-cases (take_out n sw.cache)) [
  | inl e ↦
      let t : TakesOut n sw.cache none =
        subst (TakesOut n sw.cache) e (take_out-TakesOut n lo hi sw.cache a) in
      ground (arith, t, without_none n (numbers sw.cache) t)
  | inr (l, e) ↦
      let t : TakesOut n sw.cache (some l) =
        subst (TakesOut n sw.cache) e (take_out-TakesOut n lo hi sw.cache a) in
      ground (arith, t)
]

pub contains-without :
    (n m : ℕ) (ns : List ℕ) → contains m (without n ns) ≡ (if n == m then false else contains m ns)
contains-without n m [] = ground arith
contains-without n m (k ∷ ns) = ground (arith, contains-without n m ns)

pub contains-at_least :
    (una m : ℕ) (ns : List ℕ)
    → contains m (at_least una ns) ≡ (if leb una m then contains m ns else false)
contains-at_least una m [] = ground arith
contains-at_least una m (k ∷ ns) = ground (arith, contains-at_least una m ns)

pub contains_bounds :
    (lo hi n : ℕ) (ns : List ℕ) → IsAscending lo hi ns → contains n ns ≡ true → (lo ≤ n) × (n < hi)
contains_bounds lo hi n [] a h = cc
contains_bounds lo hi n (m ∷ ns) a h = ground (arith, contains_bounds (m + 1) hi n ns a.2)
