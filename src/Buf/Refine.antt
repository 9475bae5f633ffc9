-- ===== src/Buf/Refine.antt =====
-- Runs of the operations of a buffer, and of what it promises.
use xray_core_python.Prelude.{
  ◌+◌, ◌≡◌, refl, sym, ap, ◌∙◌, true, ltb, leb, ◌==◌, Bool-cases, inl, inr, ℕ, All, length, Option,
  none, some, List, [], ◌∷◌, subst,
}
use xray_core_python.Buf.{Buffer}
use xray_core_python.Buf.Slices.{IsValid}
use xray_core_python.Buf.Promise.{
  Agrees, Answer, answer, refused, Operation, Queue, room, agree, both_panic, promise, step, view,
  on_write, on_write_byte, on_read_byte, on_read_bytes, on_read, on_extend, on_advance, on_clear,
  on_read_full_from,
}
use xray_core_python.Buf.Steps.{IsSmall, step-Agrees}

-- A run goes on from a result, unless that is a panic.
abbrev pub after :
    {S : Type 0} → (S → Option S × List Answer) → Option (S × Answer) → Option S × List Answer
after f none = (none, [])
after f (some (s, a)) = let (r, more) = f s in (r, a ∷ more)

-- A run, up to the first panic: what is left, if there was none, and the answers.
pub run : List Operation → Buffer → Option Buffer × List Answer
run [] b = (some b, [])
run (o ∷ os) b = after (run os) (step o b)

pub promised : List Operation → Queue → Option Queue × List Answer
promised [] q = (some q, [])
promised (o ∷ os) q = after (promised os) (promise o q)

abbrev pub view_left : Option Buffer → Option Queue
view_left none = none
view_left (some b) = some (view b)

-- What is promised keeps the capacity.
abbrev Keeps : ℕ → Option (Queue × Answer) → Type 0
Keeps c none = Unit
Keeps c (some (q, a)) = q.capacity ≡ c

promise-Keeps : (o : Operation) (q : Queue) → Keeps q.capacity (promise o q)
unfolding promise
promise-Keeps (on_write bs) q = refl
promise-Keeps (on_write_byte x) q = elim (Bool-cases (room q == 0)) [
  | inl e ↦ rw (e, Keeps) refl
  | inr e ↦ rw (e, Keeps) refl
]
promise-Keeps on_read_byte q =
    elim q.content
      as (λ (t : List ℕ). Keeps q.capacity (elim t [
        | [] ↦ some (q, refused)
        | x ∷ rest ↦ some (record q { lost = q.lost + 1; content = rest }, answer (x ∷ []) 1 true)
      ])) [ [] ↦ refl | x ∷ rest ↦ refl ]
promise-Keeps (on_read_bytes n) q = elim (Bool-cases (ltb (length q.content) n)) [
  | inl e ↦ rw (e, Keeps) refl
  | inr e ↦ rw (e, Keeps) refl
]
promise-Keeps (on_read n) q = elim (Bool-cases (length q.content == 0)) [
  | inl e ↦ rw (e, Keeps) refl
  | inr e ↦ elim (Bool-cases (leb (length q.content) n)) [
    | inl f ↦ rw (e, f, Keeps) refl
    | inr f ↦ rw (e, f, Keeps) refl
  ]
]
promise-Keeps (on_extend n) q = elim (Bool-cases (ltb (room q) n)) [
  | inl e ↦ rw (e, Keeps) tt
  | inr e ↦ rw (e, Keeps) refl
]
promise-Keeps (on_advance n) q = refl
promise-Keeps on_clear q = refl
promise-Keeps (on_read_full_from n input) q = elim (Bool-cases (ltb (room q) n)) [
  | inl e ↦ elim (Bool-cases (ltb ((q.lost + length q.content) + n) 2147483648)) [
    | inl f ↦ rw (e, f, Keeps) refl
    | inr f ↦ rw (e, f, Keeps) tt
  ]
  | inr e ↦ rw (e, Keeps) refl
]

module _ (capacity : ℕ) where
  after-Agrees :
      (os : List Operation) (x : Option (Buffer × Answer)) (y : Option (Queue × Answer))
      → Agrees x y
      → Keeps capacity y
      → ((b : Buffer)
          → IsValid b
          → length b.v ≡ capacity
          → (view_left (run os b).0 ≡ (promised os (view b)).0)
            × ((run os b).1 ≡ (promised os (view b)).1))
      → (view_left (after (run os) x).0 ≡ (after (promised os) y).0)
        × ((after (run os) x).1 ≡ (after (promised os) y).1)
  after-Agrees os _ _ (agree b q a valid same) k h =
      let goes_on = h b valid (ap (λ (q : Queue). q.capacity) same ∙ k) in
      subst
        (λ r.
          (view_left (run os b).0 ≡ (promised os r).0) × (a ∷ (run os b).1 ≡ a ∷ (promised os r).1))
        same (goes_on.0, ap (λ t. a ∷ t) goes_on.1)
  after-Agrees os _ _ both_panic k h = (refl, refl)

  run-promised_at :
      (os : List Operation) (b : Buffer)
      → IsValid b
      → length b.v ≡ capacity
      → All (IsSmall capacity) os
      → (view_left (run os b).0 ≡ (promised os (view b)).0)
        × ((run os b).1 ≡ (promised os (view b)).1)
  unfolding run promised
  run-promised_at [] b h c small = (refl, refl)
  run-promised_at (o ∷ os) b h c small =
      after-Agrees os (step o b) (promise o (view b))
        (step-Agrees o b h (subst (λ n. IsSmall n o) (sym c) small.0))
        (subst (λ n. Keeps n (promise o (view b))) c (promise-Keeps o (view b)))
        (λ b' valid same. run-promised_at os b' valid same small.1)

-- Over any run of operations, a valid buffer gives the answers that a bounded queue of bytes
-- promises, panics where that does, and is left standing for what that is left with, where each
-- number of bytes to advance by and the buffer's capacity are below 2^31 together.
pub run-promised :
    (os : List Operation) (b : Buffer)
    → IsValid b
    → All (IsSmall (length b.v)) os
    → (view_left (run os b).0 ≡ (promised os (view b)).0)
      × ((run os b).1 ≡ (promised os (view b)).1)
run-promised os b h small = run-promised_at (length b.v) os b h refl small
