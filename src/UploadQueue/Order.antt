-- ===== src/UploadQueue/Order.antt =====
-- The bytes that are read from an upload queue are those of the packets in the order of their numbers.
use xray_core_python.Prelude.{
  ℕ, zero, suc, ◌+◌, ◌%◌, ◌<◌, ◌≡◌, ◌≢◌, refl, sym, ap, subst, ◌∙◌, List, [], ◌∷◌, ◌++◌,
  append_assoc, append-nil, ltb, ◌==◌, length, take, drop, take-append-drop, min, All, arith,
  Bool-cases, inl, inr, drop-drop, take-add,
}
use xray_core_python.UploadQueue.{
  Packet, UploadQueue, insert, push_packet, Arrival, arrives, ReadAnswer, got_bytes, too_large,
  deliver, drop_stale, with_least, bytes_of,
}
use xray_core_python.UploadQueue.Packets.{
  Apart, packets_of, All-map, All-zip, All-insert, Apart-insert, All-drop_stale, Apart-drop_stale,
  push_packet-insert,
}

module _ (stream : ℕ → List ℕ) where
  -- The payloads of the packets before a number.
  abbrev pub upto : ℕ → List ℕ
  upto zero = []
  upto (suc n) = upto n ++ stream n

  -- What was read, when a number is next and some bytes of its packet were read.
  abbrev pub so_far : ℕ → ℕ → List ℕ
  so_far next off = upto next ++ take off (stream next)

  -- A packet of the heap holds what is left of it.
  pub record Holds (next off : ℕ) (p : Packet) : Type 0 where
    pub bounded : p.seq + 1 < 18446744073709551616
    pub later : next < p.seq → p.payload ≡ stream p.seq
    pub now : p.seq ≡ next → p.payload ≡ drop off (stream next)

  -- A packet to come is whole, and is not the one that is being read.
  pub record Whole (next off : ℕ) (p : Packet) : Type 0 where
    pub numbered : p.seq + 1 < 18446744073709551616
    pub whole : p.payload ≡ stream p.seq
    pub other : 0 < off → p.seq ≢ next

  pub record Inv (next off : ℕ) (h : List Packet) (arr : List Arrival) : Type 0 where
    pub holds : All (Holds next off) h
    pub apart : Apart h
    pub fresh : All (Whole next off) (packets_of arr)
    pub unseen : All (λ x. All (λ q. x.seq ≢ q.seq) h) (packets_of arr)
    pub coming : Apart (packets_of arr)

  pub record Reads (q : UploadQueue) (off : ℕ) (out : ReadAnswer × (List Arrival × UploadQueue))
      : Type 0 where
    pub left : ℕ
    pub inv : Inv out.1.1.next_seq left out.1.1.heap out.1.0
    pub sent : so_far q.next_seq off ++ bytes_of out.0 ≡ so_far out.1.1.next_seq left

  -- The whole rest of a packet is delivered.
  deliver_whole :
      (p : Packet) (h : List Packet) (q : UploadQueue) (arr : List Arrival) (off : ℕ)
      → p.seq ≡ q.next_seq
      → Inv q.next_seq off (p ∷ h) arr
      → Reads q off (
        got_bytes p.payload,
        (arr, record q { heap = h; next_seq = (p.seq + 1) % 18446744073709551616 }),
      )
  deliver_whole p h q arr off e i =
      let w : (p.seq + 1) % 18446744073709551616 ≡ suc q.next_seq =
        omega (arith, e, i.holds.0.bounded) in
      let next : Inv (suc q.next_seq) 0 h arr = record {
        holds =
            All-map (Holds q.next_seq off) (Holds (suc q.next_seq) 0) h
              (λ r k. record {
                bounded = k.bounded;
                later = λ g. k.later (omega (arith, g));
                now = λ g. k.later (omega (arith, g)) ∙ ap stream g;
              })
              i.holds.1;
        apart = i.apart.1;
        fresh =
            All-map (Whole q.next_seq off) (Whole (suc q.next_seq) 0) (packets_of arr)
              (λ x k. record {
                numbered = k.numbered;
                whole = k.whole;
                other = λ g. absurd (omega (arith, g));
              })
              i.fresh;
        unseen =
            All-map (λ x. All (λ r. x.seq ≢ r.seq) (p ∷ h)) (λ x. All (λ r. x.seq ≢ r.seq) h)
              (packets_of arr) (λ x u. u.1) i.unseen;
        coming = i.coming;
      } in
      record {
        left = 0;
        inv = subst (λ m. Inv m 0 h arr) (sym w) next;
        sent =
            append_assoc (upto q.next_seq) (take off (stream q.next_seq)) p.payload
            ∙ ap (λ t. upto q.next_seq ++ (take off (stream q.next_seq) ++ t)) (i.holds.0.now e)
            ∙ ap (λ t. upto q.next_seq ++ t) (take-append-drop off (stream q.next_seq))
            ∙ sym (append-nil (upto (suc q.next_seq)))
            ∙ ap (λ m. so_far m 0) (sym w);
      }

  deliver_part :
      (n : ℕ) (p : Packet) (h : List Packet) (q : UploadQueue) (arr : List Arrival) (off : ℕ)
      → p.seq ≡ q.next_seq
      → Inv q.next_seq off (p ∷ h) arr
      → Reads q off (
        got_bytes (take n p.payload),
        (arr, record q { heap = insert (record p { payload = drop n p.payload }) h }),
      )
  deliver_part n p h q arr off e i =
      let rest : Packet = record p { payload = drop n p.payload } in
      record {
        left = off + n;
        inv = record {
          holds =
              All-insert (Holds q.next_seq (off + n)) rest h
                (record {
                  bounded = i.holds.0.bounded;
                  later = λ g. absurd (omega (arith, e, g));
                  now = λ g. ap (drop n) (i.holds.0.now e) ∙ drop-drop off n (stream q.next_seq);
                })
                (All-zip (Holds q.next_seq off) (λ r. p.seq ≢ r.seq) (Holds q.next_seq (off + n)) h
                  (λ r k d. record {
                    bounded = k.bounded;
                    later = k.later;
                    now = λ g. absurd (d (e ∙ sym g));
                  })
                  i.holds.1 i.apart.0);
          apart = Apart-insert rest h i.apart;
          fresh =
              All-zip (Whole q.next_seq off) (λ x. All (λ r. x.seq ≢ r.seq) (p ∷ h))
                (Whole q.next_seq (off + n)) (packets_of arr)
                (λ x k u. record {
                  numbered = k.numbered;
                  whole = k.whole;
                  other = λ z g. u.0 (g ∙ sym e);
                })
                i.fresh i.unseen;
          unseen =
              All-map (λ x. All (λ r. x.seq ≢ r.seq) (p ∷ h))
                (λ x. All (λ r. x.seq ≢ r.seq) (insert rest h)) (packets_of arr)
                (λ x u. All-insert (λ r. x.seq ≢ r.seq) rest h u.0 u.1) i.unseen;
          coming = i.coming;
        };
        sent =
            append_assoc (upto q.next_seq) (take off (stream q.next_seq)) (take n p.payload)
            ∙ ap (λ t. upto q.next_seq ++ (take off (stream q.next_seq) ++ take n t))
                (i.holds.0.now e)
            ∙ ap (λ t. upto q.next_seq ++ t) (take-add off n (stream q.next_seq));
      }

  deliver-Reads :
      (reorder : List Packet → List Packet)
      → ((h : List Packet) → Apart h → reorder h ≡ h)
      → (size : ℕ) (p : Packet) (h : List Packet) (q : UploadQueue) (arr : List Arrival) (off : ℕ)
      → p.seq ≡ q.next_seq
      → Inv q.next_seq off (p ∷ h) arr
      → let (answer, q1) = deliver reorder size p (record q { heap = h }) in
        Reads q off (answer, (arr, q1))
  deliver-Reads reorder settled size p h q arr off e i =
      elim (Bool-cases (ltb (min size (length p.payload)) (length p.payload))) [
        | inl g ↦
            let n = min size (length p.payload) in
            let rest : Packet = record p { payload = drop n p.payload } in
            rw (g) (
              subst (λ t. Reads q off (got_bytes (take n p.payload), (arr, record q { heap = t })))
                (sym (push_packet-insert reorder settled rest h i.apart))
                (deliver_part n p h q arr off e i))
        | inr g ↦ rw (g) (deliver_whole p h q arr off e i)
      ]

  -- An answer without bytes, with the heap as it is.
  pub nothing_read :
      (a : ReadAnswer) (h : List Packet) (q : UploadQueue) (arr : List Arrival) (off : ℕ)
      → bytes_of a ≡ []
      → Inv q.next_seq off h arr
      → Reads q off (a, (arr, record q { heap = h }))
  nothing_read a h q arr off e i = record {
    left = off;
    inv = i;
    sent = ap (λ t. so_far q.next_seq off ++ t) e ∙ append-nil (so_far q.next_seq off);
  }

  dropped_first :
      (next off : ℕ) (p : Packet) (h : List Packet) (arr : List Arrival)
      → Inv next off (p ∷ h) arr
      → Inv next off h arr
  dropped_first next off p h arr i = record {
    holds = i.holds.1;
    apart = i.apart.1;
    fresh = i.fresh;
    unseen =
        All-map (λ x. All (λ r. x.seq ≢ r.seq) (p ∷ h)) (λ x. All (λ r. x.seq ≢ r.seq) h)
          (packets_of arr) (λ x u. u.1) i.unseen;
    coming = i.coming;
  }

  pub with_least-Reads :
      (reorder : List Packet → List Packet)
      → ((h : List Packet) → Apart h → reorder h ≡ h)
      → (size : ℕ) (h : List Packet) (q : UploadQueue) (arr : List Arrival) (off : ℕ)
        (wait : ReadAnswer × (List Arrival × UploadQueue))
      → Inv q.next_seq off h arr
      → Reads q off wait
      → Reads q off (with_least reorder size h q (λ a q1. (a, (arr, q1))) wait)
  with_least-Reads reorder settled size [] q arr off wait i w =
      nothing_read (got_bytes []) [] q arr off refl i
  with_least-Reads reorder settled size (p ∷ h) q arr off wait i w =
      elim (Bool-cases (p.seq == q.next_seq)) [
        | inl e ↦ rw (e) (deliver-Reads reorder settled size p h q arr off (ground (arith, e)) i)
        | inr e ↦ elim (Bool-cases (ltb q.max_packets (length h))) [
          | inl g ↦
              rw (e, g)
                (nothing_read too_large h q arr off refl (dropped_first q.next_seq off p h arr i))
          | inr g ↦ rw (e, g) w
        ]
      ]

  pub stale-Inv :
      (next off : ℕ) (h : List Packet) (arr : List Arrival)
      → Inv next off h arr
      → Inv next off (drop_stale next h) arr
  stale-Inv next off h arr i = record {
    holds = All-drop_stale (Holds next off) next h i.holds;
    apart = Apart-drop_stale next h i.apart;
    fresh = i.fresh;
    unseen =
        All-map (λ x. All (λ r. x.seq ≢ r.seq) h)
          (λ x. All (λ r. x.seq ≢ r.seq) (drop_stale next h)) (packets_of arr)
          (λ x u. All-drop_stale (λ r. x.seq ≢ r.seq) next h u) i.unseen;
    coming = i.coming;
  }

  -- What the heap's order may become, where no two packets have one number.
  pub settled-Inv :
      (next off : ℕ) (h h' : List Packet) (arr : List Arrival)
      → h' ≡ h
      → Inv next off h arr
      → Inv next off h' arr
  settled-Inv next off h h' arr e i = subst (λ t. Inv next off t arr) (sym e) i

  -- A packet arrives.
  pub insert-Inv :
      (next off : ℕ) (h : List Packet) (x : Packet) (arr : List Arrival)
      → Inv next off h (arrives x ∷ arr)
      → Inv next off (insert x h) arr
  insert-Inv next off h x arr i = record {
    holds =
        All-insert (Holds next off) x h
          (record {
            bounded = i.fresh.0.numbered;
            later = λ g. i.fresh.0.whole;
            now = λ g. elim (Bool-cases (ltb 0 off)) [
              | inl z ↦ absurd (i.fresh.0.other (ground (arith, z)) g)
              | inr z ↦
                  let n : 0 ≡ off = ground (arith, z) in
                  i.fresh.0.whole ∙ ap stream g ∙ ap (λ n. drop n (stream next)) n
            ];
          })
          i.holds;
    apart = Apart-insert x h (i.unseen.0, i.apart);
    fresh = i.fresh.1;
    unseen =
        All-zip (λ y. All (λ r. y.seq ≢ r.seq) h) (λ y. x.seq ≢ y.seq)
          (λ y. All (λ r. y.seq ≢ r.seq) (insert x h)) (packets_of arr)
          (λ y u n. All-insert (λ r. y.seq ≢ r.seq) x h (λ g. n (sym g)) u) i.unseen.1 i.coming.0;
    coming = i.coming.1;
  }

  pub push_packet-Inv :
      (reorder : List Packet → List Packet)
      → ((h : List Packet) → Apart h → reorder h ≡ h)
      → (next off : ℕ) (h : List Packet) (x : Packet) (arr : List Arrival)
      → Inv next off h (arrives x ∷ arr)
      → Inv next off (push_packet reorder x h) arr
  push_packet-Inv reorder settled next off h x arr i =
      settled-Inv next off (insert x h) (push_packet reorder x h) arr
        (push_packet-insert reorder settled x h (i.unseen.0, i.apart))
        (insert-Inv next off h x arr i)
