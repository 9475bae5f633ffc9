-- ===== src/UploadQueue/Stream.antt =====
-- Reads of an upload queue, one after the other, while packets arrive in any order.
use xray_core_python.Prelude.{
  ℕ, ◌+◌, ◌<◌, ◌≡◌, refl, sym, ap, ◌∙◌, Bool, true, false, List, [], ◌∷◌, ◌++◌, append_assoc,
  append-nil, ◌==◌, length, take, All, arith, Bool-cases, inl, inr,
}
use xray_core_python.UploadQueue.{
  Packet, UploadQueue, new_upload_queue, Arrival, arrives, is_closed, end_of_file, waits,
  drop_stale, with_arrival, read_rounds, read_first, read, bytes_of, run,
}
use xray_core_python.UploadQueue.Packets.{Apart, packets_of, All-map}
use xray_core_python.UploadQueue.Order.{
  upto, so_far, Whole, Inv, Reads, nothing_read, with_least-Reads, stale-Inv, settled-Inv,
  push_packet-Inv,
}

-- Packets that arrive: each holds its part of a stream, and no two have one number.
pub record Numbered (stream : ℕ → List ℕ) (ps : List Packet) : Type 0 where
  pub parts : All (λ p. (p.seq + 1 < 18446744073709551616) × (p.payload ≡ stream p.seq)) ps
  pub numbers : Apart ps

module _ (stream : ℕ → List ℕ) (reorder : List Packet → List Packet)
    (settled : (h : List Packet) → Apart h → reorder h ≡ h) where
  read_rounds-Reads :
      (size : ℕ) (arr : List Arrival) (q : UploadQueue) (off : ℕ)
      → Inv stream q.next_seq off q.heap arr
      → Reads stream q off (read_rounds reorder size arr q)
  unfolding read_rounds
  read_rounds-Reads size [] q off i =
      let s = stale-Inv stream q.next_seq off q.heap [] i in
      let h = drop_stale q.next_seq q.heap in
      with_least-Reads stream reorder settled size h q [] off
        (waits, ([], record q { heap = reorder h })) s
        (nothing_read stream waits (reorder h) q [] off refl
          (settled-Inv stream q.next_seq off h (reorder h) [] (settled h s.apart) s))
  read_rounds-Reads size (is_closed ∷ arr) q off i =
      let s = stale-Inv stream q.next_seq off q.heap (is_closed ∷ arr) i in
      let h = drop_stale q.next_seq q.heap in
      with_least-Reads stream reorder settled size h q (is_closed ∷ arr) off
        (end_of_file, (arr, record q { heap = reorder h })) s
        (nothing_read stream end_of_file (reorder h) q arr off refl (
          settled-Inv stream q.next_seq off h (reorder h) arr (settled h s.apart)
            (closed_left q.next_seq off h arr s)))
    where
      closed_left :
          (next off : ℕ) (h : List Packet) (arr : List Arrival)
          → Inv stream next off h (is_closed ∷ arr)
          → Inv stream next off h arr
      closed_left next off h arr i = record {
        holds = i.holds;
        apart = i.apart;
        fresh = i.fresh;
        unseen = i.unseen;
        coming = i.coming;
      }
  read_rounds-Reads size (arrives x ∷ arr) q off i =
      let s = stale-Inv stream q.next_seq off q.heap (arrives x ∷ arr) i in
      let h = drop_stale q.next_seq q.heap in
      let rest =
        read_rounds-Reads size arr (with_arrival reorder x (record q { heap = h })) off
          (push_packet-Inv stream reorder settled q.next_seq off h x arr s) in
      with_least-Reads stream reorder settled size h q (arrives x ∷ arr) off
        (read_rounds reorder size arr (with_arrival reorder x (record q { heap = h }))) s
        (record { left = rest.left; inv = rest.inv; sent = rest.sent })

  read_first-Reads :
      (size : ℕ) (arr : List Arrival) (q : UploadQueue) (off : ℕ)
      → Inv stream q.next_seq off q.heap arr
      → Reads stream q off (read_first reorder size arr q)
  read_first-Reads size [] q off i = nothing_read stream waits q.heap q [] off refl i
  read_first-Reads size (is_closed ∷ arr) q off i =
      nothing_read stream end_of_file q.heap q arr off refl (record {
        holds = i.holds;
        apart = i.apart;
        fresh = i.fresh;
        unseen = i.unseen;
        coming = i.coming;
      })
  read_first-Reads size (arrives x ∷ arr) q off i =
      let rest =
        read_rounds-Reads size arr (with_arrival reorder x q) off
          (push_packet-Inv stream reorder settled q.next_seq off q.heap x arr i) in
      record { left = rest.left; inv = rest.inv; sent = rest.sent }

  read-Reads :
      (size : ℕ) (closed : Bool) (arr : List Arrival) (q : UploadQueue) (off : ℕ)
      → Inv stream q.next_seq off q.heap arr
      → Reads stream q off (read reorder size closed arr q)
  unfolding read
  read-Reads size true arr q off i = nothing_read stream end_of_file q.heap q arr off refl i
  read-Reads size false arr q off i = elim (Bool-cases (length q.heap == 0)) [
    | inl e ↦ rw (e) (read_first-Reads size arr q off i)
    | inr e ↦ rw (e) (read_rounds-Reads size arr q off i)
  ]

  run-Inv :
      (rs : List (ℕ × Bool)) (arr : List Arrival) (q : UploadQueue) (off : ℕ)
      → Inv stream q.next_seq off q.heap arr
      → (left : ℕ) × (so_far stream q.next_seq off ++ (run reorder rs arr q).0
          ≡ so_far stream (run reorder rs arr q).1.next_seq left)
  run-Inv [] arr q off i = (off, append-nil (so_far stream q.next_seq off))
  run-Inv ((size, closed) ∷ rs) arr q off i =
      let r = read-Reads size closed arr q off i in
      let out = read reorder size closed arr q in
      let (left, e) = run-Inv rs out.1.0 out.1.1 r.left r.inv in
      (
        left,
        sym (
              append_assoc (so_far stream q.next_seq off) (bytes_of out.0)
                (run reorder rs out.1.0 out.1.1).0)
            ∙ ap (λ t. t ++ (run reorder rs out.1.0 out.1.1).0) r.sent
            ∙ e,
      )

-- Whatever order the packets of a stream arrive in, without one twice and with numbers below
-- 2^64 - 1, the bytes of any reads are the payloads before the next number, in the order of their
-- numbers, and a beginning of the next one. Where no two packets have one number, Go's heap gives
-- them in the order of the numbers.
pub run-upto :
    (stream : ℕ → List ℕ) (reorder : List Packet → List Packet)
    → ((h : List Packet) → Apart h → reorder h ≡ h)
    → (max_packets : ℕ) (rs : List (ℕ × Bool)) (arr : List Arrival)
    → Numbered stream (packets_of arr)
    → let (bytes, q) = run reorder rs arr (new_upload_queue max_packets) in
      (left : ℕ) × (bytes ≡ upto stream q.next_seq ++ take left (stream q.next_seq))
run-upto stream reorder settled max_packets rs arr n =
    run-Inv stream reorder settled rs arr (new_upload_queue max_packets) 0 (record {
      holds = tt;
      apart = tt;
      fresh =
          All-map (λ p. (p.seq + 1 < 18446744073709551616) × (p.payload ≡ stream p.seq))
            (Whole stream 0 0) (packets_of arr)
            (λ p k. record { numbered = k.0; whole = k.1; other = λ z. absurd (omega (arith, z)) })
            n.parts;
      unseen =
          All-map (λ p. (p.seq + 1 < 18446744073709551616) × (p.payload ≡ stream p.seq)) (λ x. Unit)
            (packets_of arr) (λ x k. tt) n.parts;
      coming = n.numbers;
    })
