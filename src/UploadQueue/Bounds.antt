-- ===== src/UploadQueue/Bounds.antt =====
-- When an upload queue has something to read.
use xray_core_python.Prelude.{
  ℕ, suc, ◌<◌, ◌≡◌, ◌≢◌, refl, sym, ap, ◌∙◌, true, false, List, [], ◌∷◌, ◌++◌, ltb, lt→ltb,
  le→ltb_false, ◌==◌, length, take, min, take-all, length-append, All, arith, Bool-cases, inl, inr,
}
use xray_core_python.UploadQueue.{
  Packet, UploadQueue, insert, Arrival, arrives, is_closed, ReadAnswer, got_bytes, end_of_file,
  waits, deliver, drop_stale, with_arrival, with_least, read_rounds, read,
}

pub length-insert : (p : Packet) (h : List Packet) → length (insert p h) ≡ suc (length h)
length-insert p [] = refl
length-insert p (q ∷ h) = elim (Bool-cases (ltb p.seq q.seq)) [
  | inl e ↦ rw (e) refl
  | inr e ↦ rw (e) (ap suc (length-insert p h))
]

drop_stale-append :
    (n : ℕ) (front back : List Packet) (p : Packet)
    → All (λ r. r.seq < n) front
    → p.seq ≡ n
    → drop_stale n (front ++ (p ∷ back)) ≡ p ∷ back
drop_stale-append n [] back p a e = rw (le→ltb_false p.seq n (omega (arith, e))) refl
drop_stale-append n (r ∷ front) back p (a, b) e =
    rw (lt→ltb r.seq n a) (drop_stale-append n front back p b e)

delivered :
    (reorder : List Packet → List Packet) (size : ℕ) (p : Packet) (q : UploadQueue)
    → (deliver reorder size p q).0 ≡ got_bytes (take size p.payload)
delivered reorder size p q =
    let n = min size (length p.payload) in
    elim (Bool-cases (ltb n (length p.payload))) [
      | inl g ↦
          let k : n ≡ size = ground (arith, g) in rw (g) (ap (λ i. got_bytes (take i p.payload)) k)
      | inr g ↦ rw (g) (ap got_bytes (sym (take-all size p.payload (ground (arith, g)))))
    ]

with_least_next :
    (reorder : List Packet → List Packet) (size : ℕ) (h : List Packet) (q : UploadQueue)
    (arr : List Arrival) (wait : ReadAnswer × (List Arrival × UploadQueue)) (back : List Packet)
    (p : Packet)
    → h ≡ p ∷ back
    → p.seq ≡ q.next_seq
    → ((with_least reorder size h q (λ a q1. (a, (arr, q1))) wait).0
        ≡ got_bytes (take size p.payload))
      × ((with_least reorder size h q (λ a q1. (a, (arr, q1))) wait).1.0 ≡ arr)
with_least_next reorder size h q arr wait back p d e =
    let g : (p.seq == q.next_seq) ≡ true = ground (arith, e) in
    (
      ap (λ t. (with_least reorder size t q (λ a q1. (a, (arr, q1))) wait).0) d
          ∙ rw (g) (delivered reorder size p (record q { heap = back })),
      ap (λ t. (with_least reorder size t q (λ a q1. (a, (arr, q1))) wait).1.0) d ∙ rw (g) refl,
    )

read_rounds_next :
    (reorder : List Packet → List Packet) (size : ℕ) (arr : List Arrival) (q : UploadQueue)
    (back : List Packet) (p : Packet)
    → drop_stale q.next_seq q.heap ≡ p ∷ back
    → p.seq ≡ q.next_seq
    → ((read_rounds reorder size arr q).0 ≡ got_bytes (take size p.payload))
      × ((read_rounds reorder size arr q).1.0 ≡ arr)
unfolding read_rounds
read_rounds_next reorder size [] q back p d e =
    let h = drop_stale q.next_seq q.heap in
    with_least_next reorder size h q [] (waits, ([], record q { heap = reorder h })) back p d e
read_rounds_next reorder size (is_closed ∷ arr) q back p d e =
    let h = drop_stale q.next_seq q.heap in
    with_least_next reorder size h q (is_closed ∷ arr)
      (end_of_file, (arr, record q { heap = reorder h })) back p d e
read_rounds_next reorder size (arrives x ∷ arr) q back p d e =
    let h = drop_stale q.next_seq q.heap in
    with_least_next reorder size h q (arrives x ∷ arr)
      (read_rounds reorder size arr (with_arrival reorder x (record q { heap = h }))) back p d e

-- Where the packet that is next is held, behind none but those whose turn is over, a read of an open
-- queue does not wait: it returns as much of the packet as it has room for, and takes no arrival. No
-- other packet that is held has the number that is next.
pub read_next :
    (reorder : List Packet → List Packet) (size : ℕ) (arr : List Arrival) (q : UploadQueue)
    (front back : List Packet) (p : Packet)
    → q.heap ≡ front ++ (p ∷ back)
    → All (λ r. r.seq < q.next_seq) front
    → p.seq ≡ q.next_seq
    → All (λ r. r.seq ≢ q.next_seq) back
    → ((read reorder size false arr q).0 ≡ got_bytes (take size p.payload))
      × ((read reorder size false arr q).1.0 ≡ arr)
read_next reorder size arr q front back p h a e alone =
    let l = ap length h ∙ length-append front (p ∷ back) in
    let some_packet : (length q.heap == 0) ≡ false = ground (arith, l) in
    let d = ap (drop_stale q.next_seq) h ∙ drop_stale-append q.next_seq front back p a e in
    unfold read in rw (some_packet) (read_rounds_next reorder size arr q back p d e)
