-- ===== src/UploadQueue/Ready.antt =====
-- An upload queue of which all packets are there or still to come, each number once.
use xray_core_python.Prelude.{
  ℕ, suc, ◌+◌, ◌<◌, ◌≤◌, ◌≡◌, ◌≢◌, refl, sym, subst, ◌∙◌, ◌⊎◌, inl, inr, List, [], ◌∷◌, ltb,
  le→ltb_false, length, All, arith, Bool-cases,
}
use xray_core_python.UploadQueue.{Packet, insert, push_packet, Arrival, arrives, drop_stale}
use xray_core_python.UploadQueue.Packets.{
  Apart, All-map, All-zip, All-insert, Apart-insert, push_packet-insert,
}
use xray_core_python.UploadQueue.Bounds.{length-insert}

-- Some packet has a number.
abbrev pub Has : ℕ → List Packet → Type 0
Has k [] = ⊥
Has k (p ∷ h) = (p.seq ≡ k) ⊎ Has k h

abbrev Sorted : List Packet → Type 0
Sorted [] = Unit
Sorted (p ∷ h) = All (λ q. p.seq ≤ q.seq) h × Sorted h

abbrev pub incoming : List Packet → List Arrival
incoming [] = []
incoming (p ∷ ps) = arrives p ∷ incoming ps

Sorted-insert : (x : Packet) (h : List Packet) → Sorted h → Sorted (insert x h)
Sorted-insert x [] s = (tt, tt)
Sorted-insert x (q ∷ h) (a, s) = elim (Bool-cases (ltb x.seq q.seq)) [
  | inl e ↦
      let l : x.seq ≤ q.seq = ground (arith, e) in
      rw (e) (
        (l, All-map (λ r. q.seq ≤ r.seq) (λ r. x.seq ≤ r.seq) h (λ r k. omega (arith, k, l)) a),
        (a, s),
      )
  | inr e ↦ rw (e) (All-insert (λ r. q.seq ≤ r.seq) x h (ground (arith, e)) a, Sorted-insert x h s)
]

Has-insert : (k : ℕ) (x : Packet) (h : List Packet) → (x.seq ≡ k) ⊎ Has k h → Has k (insert x h)
Has-insert k x [] h = h
Has-insert k x (q ∷ h) g = elim (Bool-cases (ltb x.seq q.seq)) [
  | inl e ↦ rw (e) g
  | inr e ↦ rw (e) (elim g [
    | inl a ↦ inr (Has-insert k x h (inl a))
    | inr g' ↦ elim g' [ inl b ↦ inl b | inr c ↦ inr (Has-insert k x h (inr c)) ]
  ])
]

-- A number below all of them is not there.
pub not_below : (k : ℕ) (h : List Packet) → All (λ q. k < q.seq) h → Has k h → ⊥
not_below k [] a g = g
not_below k (p ∷ h) (l, a) (inl e) = omega (arith, l, e)
not_below k (p ∷ h) (l, a) (inr g) = not_below k h a g

pub no_stale : (n : ℕ) (h : List Packet) → All (λ q. n ≤ q.seq) h → drop_stale n h ≡ h
no_stale n [] a = refl
no_stale n (p ∷ h) (l, a) = rw (le→ltb_false p.seq n l) refl

module _ (stream : ℕ → List ℕ) (size n : ℕ) where
  pub record Whole (next : ℕ) (p : Packet) : Type 0 where
    pub bounded : p.seq + 1 < 18446744073709551616
    pub due : next ≤ p.seq
    pub part : p.payload ≡ stream p.seq
    pub fits : length p.payload ≤ size

  pub record Ready (next max : ℕ) (h ps : List Packet) : Type 0 where
    pub sorted : Sorted h
    pub held : All (Whole next) h
    pub coming : All (Whole next) ps
    pub apart : Apart h
    pub unseen : All (λ x. All (λ q. x.seq ≢ q.seq) h) ps
    pub others : Apart ps
    pub there : (k : ℕ) → next ≤ k → k < n → Has k h ⊎ Has k ps
    pub few : length h + length ps ≤ max

  pub past : (next : ℕ) (p : Packet) → next ≤ p.seq → p.seq ≢ next → suc next ≤ p.seq
  past next p l d = elim (Bool-cases (ltb next p.seq)) [
    | inl e ↦ ground (arith, e)
    | inr e ↦ absurd (d (ground (arith, e, l)))
  ]

  after : (next : ℕ) (p : Packet) → Whole next p → p.seq ≢ next → Whole (suc next) p
  after next p w d = record {
    bounded = w.bounded;
    due = past next p w.due d;
    part = w.part;
    fits = w.fits;
  }

  -- The packet that is next was read.
  pub Ready-next :
      (next max : ℕ) (p : Packet) (h ps : List Packet)
      → p.seq ≡ next
      → Ready next max (p ∷ h) ps
      → Ready (suc next) max h ps
  Ready-next next max p h ps e r = record {
    sorted = r.sorted.1;
    held =
        All-zip (Whole next) (λ q. p.seq ≢ q.seq) (Whole (suc next)) h
          (λ q w d. after next q w (λ f. d (e ∙ sym f))) r.held.1 r.apart.0;
    coming =
        All-zip (Whole next) (λ x. All (λ q. x.seq ≢ q.seq) (p ∷ h)) (Whole (suc next)) ps
          (λ x w u. after next x w (λ f. u.0 (f ∙ sym e))) r.coming r.unseen;
    apart = r.apart.1;
    unseen =
        All-map (λ x. All (λ q. x.seq ≢ q.seq) (p ∷ h)) (λ x. All (λ q. x.seq ≢ q.seq) h) ps
          (λ x u. u.1) r.unseen;
    others = r.others;
    there = λ k a b. still k a (r.there k (omega (arith, a)) b);
    few = omega (arith, r.few);
  }
    where
      still : (k : ℕ) → suc next ≤ k → ((p.seq ≡ k) ⊎ Has k h) ⊎ Has k ps → Has k h ⊎ Has k ps
      still k a (inl (inl f)) = absurd (omega (arith, a, e, f))
      still k a (inl (inr g)) = inl g
      still k a (inr g) = inr g

  -- A packet arrived.
  Ready-insert :
      (next max : ℕ) (x : Packet) (h ps : List Packet)
      → Ready next max h (x ∷ ps)
      → Ready next max (insert x h) ps
  Ready-insert next max x h ps r = record {
    sorted = Sorted-insert x h r.sorted;
    held = All-insert (Whole next) x h r.coming.0 r.held;
    coming = r.coming.1;
    apart = Apart-insert x h (r.unseen.0, r.apart);
    unseen =
        All-zip (λ y. All (λ q. y.seq ≢ q.seq) h) (λ y. x.seq ≢ y.seq)
          (λ y. All (λ q. y.seq ≢ q.seq) (insert x h)) ps
          (λ y u d. All-insert (λ q. y.seq ≢ q.seq) x h (λ g. d (sym g)) u) r.unseen.1 r.others.0;
    others = r.others.1;
    there = λ k a b. arrived k (r.there k a b);
    few = let l = length-insert x h in omega (arith, r.few, l);
  }
    where
      arrived : (k : ℕ) → Has k h ⊎ ((x.seq ≡ k) ⊎ Has k ps) → Has k (insert x h) ⊎ Has k ps
      arrived k (inl g) = inl (Has-insert k x h (inr g))
      arrived k (inr (inl e)) = inl (Has-insert k x h (inl e))
      arrived k (inr (inr g)) = inr g

  pub Ready-push :
      (reorder : List Packet → List Packet)
      → ((h : List Packet) → Apart h → reorder h ≡ h)
      → (next max : ℕ) (x : Packet) (h ps : List Packet) → Ready next max h (x ∷ ps)
      → Ready next max (push_packet reorder x h) ps
  Ready-push reorder settled next max x h ps r =
      subst (λ t. Ready next max t ps)
        (sym (push_packet-insert reorder settled x h (r.unseen.0, r.apart)))
        (Ready-insert next max x h ps r)
