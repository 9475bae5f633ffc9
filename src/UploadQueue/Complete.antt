-- ===== src/UploadQueue/Complete.antt =====
-- When all packets of a stream arrive, in any order, reads with room for them return all of it.
use xray_core_python.Prelude.{
  ℕ, zero, suc, ◌+◌, ◌%◌, ◌<◌, ◌≤◌, ◌≡◌, ◌≢◌, refl, sym, ap, ap₂, subst, ◌∙◌, ◌⊎◌, inl, inr, Bool,
  true, false, List, [], ◌∷◌, ◌++◌, ltb, le→ltb_false, ◌==◌, length, min, All, arith, Bool-cases,
}
use xray_core_python.UploadQueue.{
  Packet, UploadQueue, new_upload_queue, insert, push_packet, Arrival, arrives, ReadAnswer,
  got_bytes, waits, deliver, drop_stale, with_arrival, with_least, read_rounds, read_first, read,
  run, bytes_of,
}
use xray_core_python.UploadQueue.Packets.{Apart, All-map, push_packet-insert}
use xray_core_python.UploadQueue.Ready.{
  Has, incoming, no_stale, not_below, Whole, Ready, past, Ready-next, Ready-push,
}

-- The payloads from a number on, and as many reads of a size.
abbrev pub payloads : (ℕ → List ℕ) → ℕ → ℕ → List ℕ
payloads stream next zero = []
payloads stream next (suc k) = stream next ++ payloads stream (suc next) k

abbrev pub times : ℕ → ℕ → List (ℕ × Bool)
times size zero = []
times size (suc k) = (size, false) ∷ times size k

module _ (reorder : List Packet → List Packet)
    (settled : (h : List Packet) → Apart h → reorder h ≡ h) (stream : ℕ → List ℕ) (size n : ℕ) where
  record Step (next max : ℕ) (out : ReadAnswer × (List Arrival × UploadQueue)) : Type 0 where
    rest : List Packet
    answer : out.0 ≡ got_bytes (stream next)
    left : out.1.0 ≡ incoming rest
    moved : out.1.1.next_seq ≡ suc next
    same : out.1.1.max_packets ≡ max
    ready : Ready stream size n (suc next) max out.1.1.heap rest

  deliver-Step :
      (p : Packet) (h : List Packet) (q : UploadQueue) (ps : List Packet)
      → p.seq ≡ q.next_seq
      → Ready stream size n q.next_seq q.max_packets (p ∷ h) ps
      → let (a, q1) = deliver reorder size p (record q { heap = h }) in
        Step q.next_seq q.max_packets (a, (incoming ps, q1))
  deliver-Step p h q ps e r =
      let w = r.held.0 in
      let all_fits : ltb (min size (length p.payload)) (length p.payload) ≡ false =
        le→ltb_false (min size (length p.payload)) (length p.payload) (omega (arith, w.fits)) in
      let next : (p.seq + 1) % 18446744073709551616 ≡ suc q.next_seq =
        omega (arith, e, w.bounded) in
      rw (all_fits) (record {
        rest = ps;
        answer = ap got_bytes (w.part ∙ ap stream e);
        left = refl;
        moved = next;
        same = refl;
        ready = Ready-next stream size n q.next_seq q.max_packets p h ps e r;
      })

  with_least-Step :
      (p : Packet) (h : List Packet) (q : UploadQueue) (ps : List Packet)
      (wait : ReadAnswer × (List Arrival × UploadQueue))
      → Ready stream size n q.next_seq q.max_packets (p ∷ h) ps
      → (p.seq ≢ q.next_seq → Step q.next_seq q.max_packets wait)
      → Step q.next_seq q.max_packets
          (with_least reorder size (p ∷ h) q (λ a q1. (a, (incoming ps, q1))) wait)
  with_least-Step p h q ps wait r k = elim (Bool-cases (p.seq == q.next_seq)) [
    | inl e ↦ rw (e) (deliver-Step p h q ps (ground (arith, e)) r)
    | inr e ↦
        let few : ltb q.max_packets (length h) ≡ false =
          le→ltb_false q.max_packets (length h) (omega (arith, r.few)) in
        rw (e, few) (k (λ g. ground (arith, e, g)))
  ]

  insert_some :
      (x : Packet) (h : List Packet) → (p : Packet) × ((t : List Packet) × (insert x h ≡ p ∷ t))
  insert_some x [] = (x, ([], refl))
  insert_some x (q ∷ h) = elim (Bool-cases (ltb x.seq q.seq)) [
    | inl e ↦ rw (e) (x, (q ∷ h, refl))
    | inr e ↦ rw (e) (q, (insert x h, refl))
  ]

  push_some :
      (x : Packet) (h : List Packet)
      → Apart (x ∷ h)
      → (p : Packet) × ((t : List Packet) × (push_packet reorder x h ≡ p ∷ t))
  push_some x h a =
      let (p, (t, e)) = insert_some x h in (p, (t, push_packet-insert reorder settled x h a ∙ e))

  -- With nothing more to come, the packet that is next stands first.
  first_is_next :
      (next max : ℕ) (p : Packet) (h : List Packet)
      → next < n
      → Ready stream size n next max (p ∷ h) []
      → p.seq ≢ next
      → ⊥
  first_is_next next max p h l r d =
      let b = past stream size n next p r.held.0.due d in
      elim (r.there next (omega arith) l) [
        | inl g ↦
            not_below next (p ∷ h)
              (
                omega (arith, b),
                All-map (λ q. p.seq ≤ q.seq) (λ q. next < q.seq) h (λ q k. omega (arith, k, b))
                    r.sorted.0,
              )
              g
        | inr g ↦ g
      ]

  read_rounds-Step :
      (ps : List Packet) (q : UploadQueue) (p : Packet) (h : List Packet)
      → q.next_seq < n
      → q.heap ≡ p ∷ h
      → Ready stream size n q.next_seq q.max_packets q.heap ps
      → Step q.next_seq q.max_packets (read_rounds reorder size (incoming ps) q)
  unfolding read_rounds
  read_rounds-Step [] q p h l e r =
      let d = no_stale q.next_seq q.heap (
        All-map (Whole stream size n q.next_seq) (λ x. q.next_seq ≤ x.seq) q.heap (λ x w. w.due)
          r.held) in
      let r1 = subst (λ t. Ready stream size n q.next_seq q.max_packets t []) e r in
      let wait : ReadAnswer × (List Arrival × UploadQueue) =
        (waits, ([], record q { heap = reorder (drop_stale q.next_seq q.heap) })) in
      subst
        (λ t.
          Step q.next_seq q.max_packets (with_least reorder size t q (λ a q1. (a, ([], q1))) wait))
        (sym (d ∙ e))
        (with_least-Step p h q [] wait r1
          (λ f. absurd (first_is_next q.next_seq q.max_packets p h l r1 f)))
  read_rounds-Step (x ∷ ps) q p h l e r =
      let d = no_stale q.next_seq q.heap (
        All-map (Whole stream size n q.next_seq) (λ y. q.next_seq ≤ y.seq) q.heap (λ y w. w.due)
          r.held) in
      let r1 = subst (λ t. Ready stream size n q.next_seq q.max_packets t (x ∷ ps)) e r in
      let q1 : UploadQueue =
        with_arrival reorder x (record q { heap = drop_stale q.next_seq q.heap }) in
      let r0 = subst (λ t. Ready stream size n q.next_seq q.max_packets t (x ∷ ps)) (sym d) r in
      let (p2, (h2, e2)) = push_some x (drop_stale q.next_seq q.heap) (r0.unseen.0, r0.apart) in
      let r2 =
        Ready-push stream size n reorder settled q.next_seq q.max_packets x
          (drop_stale q.next_seq q.heap) ps r0 in
      let wait = read_rounds reorder size (incoming ps) q1 in
      subst
        (λ t.
          Step q.next_seq q.max_packets
            (with_least reorder size t q (λ a q2. (a, (arrives x ∷ incoming ps, q2))) wait))
        (sym (d ∙ e))
        (with_least-Step p h q (x ∷ ps) wait r1 (λ f. read_rounds-Step ps q1 p2 h2 l e2 r2))

  -- A queue that holds nothing takes the first packet.
  read_first-Step :
      (ps : List Packet) (q : UploadQueue)
      → q.next_seq < n
      → q.heap ≡ []
      → Ready stream size n q.next_seq q.max_packets q.heap ps
      → Step q.next_seq q.max_packets (read_first reorder size (incoming ps) q)
  read_first-Step [] q l e r =
      elim (subst (λ t. Has q.next_seq t ⊎ Has q.next_seq []) e
        (r.there q.next_seq (omega arith) l)) [ inl g ↦ absurd g | inr g ↦ absurd g ]
  read_first-Step (x ∷ ps) q l e r =
      let (p2, (h2, e2)) = push_some x q.heap (r.unseen.0, r.apart) in
      read_rounds-Step ps (with_arrival reorder x q) p2 h2 l e2
        (Ready-push stream size n reorder settled q.next_seq q.max_packets x q.heap ps r)

  read-Step :
      (ps : List Packet) (q : UploadQueue) (h : List Packet)
      → q.heap ≡ h
      → q.next_seq < n
      → Ready stream size n q.next_seq q.max_packets q.heap ps
      → Step q.next_seq q.max_packets (read reorder size false (incoming ps) q)
  unfolding read
  read-Step ps q [] e l r =
      let c : (length q.heap == 0) ≡ true = ap (λ t. length t == 0) e in
      rw (c) (read_first-Step ps q l e r)
  read-Step ps q (p ∷ h) e l r =
      let c : (length q.heap == 0) ≡ false = ap (λ t. length t == 0) e ∙ ground arith in
      rw (c) (read_rounds-Step ps q p h l e r)

  run-payloads :
      (k : ℕ) (ps : List Packet) (q : UploadQueue)
      → q.next_seq + k ≡ n
      → Ready stream size n q.next_seq q.max_packets q.heap ps
      → (run reorder (times size k) (incoming ps) q).0 ≡ payloads stream q.next_seq k
  run-payloads zero ps q e r = refl
  run-payloads (suc k) ps q e r =
      let s = read-Step ps q q.heap refl (omega (arith, e)) r in
      let out = read reorder size false (incoming ps) q in
      let ready =
        subst (λ m. Ready stream size n m out.1.1.max_packets out.1.1.heap s.rest) (sym s.moved)
          (subst (λ m. Ready stream size n (suc q.next_seq) m out.1.1.heap s.rest) (sym s.same)
            s.ready) in
      ap₂ (λ a b. bytes_of a ++ b) s.answer
        (ap (λ t. (run reorder (times size k) t out.1.1).0) s.left
          ∙ run-payloads k s.rest out.1.1 (omega (arith, e, s.moved)) ready
          ∙ ap (λ m. payloads stream m k) s.moved)

-- The packets of a stream: each below a number, whole, with room for it, and each number once.
pub record IsComplete (stream : ℕ → List ℕ) (size n : ℕ) (ps : List Packet) : Type 0 where
  pub parts :
      All
        (λ p.
          (p.seq + 1 < 18446744073709551616)
          × ((p.payload ≡ stream p.seq) × (length p.payload ≤ size)))
        ps
  pub numbers : Apart ps
  pub all_numbers : (k : ℕ) → k < n → Has k ps

-- When the packets 0, ..., n - 1 of a stream arrive, once each, in any order and with numbers below
-- 2^64 - 1, at an open queue that is made for as many packets as arrive, n reads with room for any
-- packet return the whole stream in order. Where no two packets have one number, Go's heap gives them
-- in the order of the numbers.
pub run_complete :
    (reorder : List Packet → List Packet)
    → ((h : List Packet) → Apart h → reorder h ≡ h)
    → (stream : ℕ → List ℕ) (size n max_packets : ℕ) (ps : List Packet)
    → IsComplete stream size n ps
    → length ps ≤ max_packets
    → (run reorder (times size n) (incoming ps) (new_upload_queue max_packets)).0
      ≡ payloads stream 0 n
run_complete reorder settled stream size n max_packets ps c l =
    run-payloads reorder settled stream size n n ps (new_upload_queue max_packets) (omega arith)
      (record {
        sorted = tt;
        held = tt;
        coming =
            All-map
              (λ p.
                (p.seq + 1 < 18446744073709551616)
                × ((p.payload ≡ stream p.seq) × (length p.payload ≤ size)))
              (Whole stream size n 0) ps
              (λ p k. record { bounded = k.0; due = omega arith; part = k.1.0; fits = k.1.1 })
              c.parts;
        apart = tt;
        unseen =
            All-map
              (λ p.
                (p.seq + 1 < 18446744073709551616)
                × ((p.payload ≡ stream p.seq) × (length p.payload ≤ size)))
              (λ x. Unit) ps (λ p k. tt) c.parts;
        others = c.numbers;
        there = λ k a b. inr (c.all_numbers k b);
        few = omega (arith, l);
      })
