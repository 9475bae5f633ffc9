-- ===== src/Kcp/Sending/Acks.antt =====
-- What an acknowledgement segment leaves in the sending window.
use xray_core_python.Prelude.{
  ℕ, ◌≡◌, refl, sym, ap, ◌∙◌, Bool, false, List, [], ◌∷◌, leb, ltb, if◌then◌else◌, IsU32, All,
  arith, Bool-cases, inl, inr,
}
use xray_core_python.Kcp.Segment.{AckSegment, is_empty}
use xray_core_python.Kcp.RoundTripInfo.{RoundTripInfo}
use xray_core_python.Kcp.Sending.{SendingWindow, clear, handle_fast_ack}
use xray_core_python.Kcp.Sending.Window.{
  numbers, contains, at_least, IsAscending-at_least, clear-at_least, contains-without,
  contains-at_least,
}
use xray_core_python.Kcp.Sending.Transmit.{numbers-handle_fast_ack}
use xray_core_python.Kcp.Sending.Worker.{
  SendingWorker, process_receiving_next, process_ack, process_acks, process_segment,
}
use xray_core_python.Kcp.Sending.Order.{
  IsOrdered, find_first_unacknowledged-IsOrdered, find_first_unacknowledged-window,
  with_window-IsOrdered, process_ack-without,
}

pub process_receiving_next_lem :
    (una : ℕ) (w : SendingWorker)
    → IsOrdered w
    → let w' = process_receiving_next una w in
      (numbers w'.window.cache ≡ at_least una (numbers w.window.cache))
      × (w'.next_number ≡ w.next_number)
      × IsOrdered w'
unfolding process_receiving_next
process_receiving_next_lem una w o =
    let kept = clear-at_least una w.first_unacknowledged w.next_number w.window o.ascending in
    let w' = record w { window = clear una w.window } in
    let o' =
      with_window-IsOrdered w (clear una w.window)
        (rw kept (
          IsAscending-at_least w.first_unacknowledged w.next_number una (numbers w.window.cache)
            o.ascending))
        o in
    let found = find_first_unacknowledged-window w' in
    (
      ap (λ (sw : SendingWindow). numbers sw.cache) found.0 ∙ kept,
      found.1,
      (find_first_unacknowledged-IsOrdered w' o').0,
    )

-- Every number of the list is gone from the window, and no other.
process_acks_lem :
    (ns : List ℕ) (maxack : ℕ) (b : Bool) (w : SendingWorker)
    → All IsU32 ns
    → IsOrdered w
    → let w' = (process_acks ns maxack b w).0 in
      ((m : ℕ)
        → contains m (numbers w'.window.cache)
          ≡ (if contains m ns then false else contains m (numbers w.window.cache)))
      × (w'.next_number ≡ w.next_number)
      × IsOrdered w'
unfolding process_acks
process_acks_lem [] maxack b w h o = (λ m. refl, refl, o)
process_acks_lem (n ∷ ns) maxack b w h o =
    let (w1, removed) = process_ack n w in
    let one = process_ack-without n w h.0 o in
    let larger = ltb maxack n in
    let ih =
      process_acks_lem ns (if larger then n else maxack) (if larger then removed else b) w1 h.1
        one.3 in
    (
      λ m. ih.0 m ∙ rw (one.1, contains-without n m (numbers w.window.cache)) (ground arith),
      ih.1 ∙ one.2,
      ih.2,
    )

-- The worker when the loop begins, and when it has ended.
abbrev opened : AckSegment → SendingWorker → SendingWorker
opened seg w = record w {
  remote_next_number =
      if ltb w.remote_next_number seg.receiving_window
      then seg.receiving_window
      else w.remote_next_number;
}

abbrev cleared : AckSegment → SendingWorker → SendingWorker
cleared seg w = process_receiving_next seg.receiving_next (opened seg w)

abbrev acked : AckSegment → SendingWorker → SendingWorker × ℕ × Bool
acked seg w = process_acks seg.number_list 0 false (cleared seg w)

process_segment_open :
    (current rto : ℕ) (seg : AckSegment) (w : SendingWorker) (info : RoundTripInfo)
    → w.closed ≡ false
    → (process_segment current seg rto w info).0 ≡ (
        if is_empty seg
        then cleared seg w
        else if (acked seg w).2
        then record ((acked seg w).0) {
          window = handle_fast_ack (acked seg w).1 rto (acked seg w).0.window;
        }
        else (acked seg w).0)
unfolding process_segment
process_segment_open current rto seg w info c = ground arith

fast_ack-IsOrdered :
    (number rto : ℕ) (w : SendingWorker)
    → IsOrdered w
    → IsOrdered (record w { window = handle_fast_ack number rto w.window })
fast_ack-IsOrdered number rto w o =
    with_window-IsOrdered w (handle_fast_ack number rto w.window)
      (rw (numbers-handle_fast_ack number rto w.window) o.ascending) o

opened-IsOrdered : (seg : AckSegment) (w : SendingWorker) → IsOrdered w → IsOrdered (opened seg w)
opened-IsOrdered seg w o = record {
  ascending = o.ascending;
  next_word = o.next_word;
  narrow = o.narrow;
}

pub process_segment_lem :
    (current rto : ℕ) (seg : AckSegment) (w : SendingWorker) (info : RoundTripInfo)
    → All IsU32 seg.number_list
    → w.closed ≡ false
    → IsOrdered w
    → let w' = (process_segment current seg rto w info).0 in
      ((m : ℕ)
        → contains m (numbers w'.window.cache) ≡ (
            if contains m seg.number_list
            then false
            else if leb seg.receiving_next m
            then contains m (numbers w.window.cache)
            else false))
      × (w'.next_number ≡ w.next_number)
      × IsOrdered w'
process_segment_lem current rto seg w info h c o =
    let una = seg.receiving_next in
    let ns = numbers w.window.cache in
    let first = process_receiving_next_lem una (opened seg w) (opened-IsOrdered seg w o) in
    let loop = process_acks_lem seg.number_list 0 false (cleared seg w) h first.2 in
    let below : (m : ℕ)
        → contains m (numbers (cleared seg w).window.cache)
          ≡ (if leb una m then contains m ns else false) =
      λ m. ap (contains m) first.0 ∙ contains-at_least una m ns in
    let named : (m : ℕ)
        → contains m (numbers (acked seg w).0.window.cache) ≡ (
            if contains m seg.number_list
            then false
            else if leb una m
            then contains m ns
            else false) =
      λ m. loop.0 m ∙ ap (λ b. if contains m seg.number_list then false else b) (below m) in
    rw (process_segment_open current rto seg w info c) (elim (Bool-cases (is_empty seg)) [
      | inl e ↦
          let nil : seg.number_list ≡ [] = ground arith in
          rw e (
            λ m.
                below m
                ∙ ap
                    (λ l.
                      if contains m l then false else if leb una m then contains m ns else false)
                    (sym nil),
            first.1,
            first.2,
          )
      | inr e ↦ elim (Bool-cases (acked seg w).2) [
        | inl fast ↦
            rw (e, fast)
              (
                λ m.
                    ap (contains m)
                      (numbers-handle_fast_ack (acked seg w).1 rto (acked seg w).0.window)
                    ∙ named m,
                loop.1 ∙ first.1,
                fast_ack-IsOrdered (acked seg w).1 rto (acked seg w).0 loop.2,
              )
        | inr slow ↦ rw (e, slow) (named, loop.1 ∙ first.1, loop.2)
      ]
    ])

-- In an open worker with an ordered window, after an acknowledgement whose numbers are words, the
-- window holds exactly the packets that it held before, that are not below the number that the peer
-- waits for, and that the list does not name. The numbers given out stay, and the window stays
-- ordered.
pub process_segment-contains :
    (m current rto : ℕ) (seg : AckSegment) (w : SendingWorker) (info : RoundTripInfo)
    → All IsU32 seg.number_list
    → w.closed ≡ false
    → IsOrdered w
    → let w' = (process_segment current seg rto w info).0 in
      (contains m (numbers w'.window.cache) ≡ (
        if contains m seg.number_list
        then false
        else if leb seg.receiving_next m
        then contains m (numbers w.window.cache)
        else false))
      × (w'.next_number ≡ w.next_number)
      × IsOrdered w'
process_segment-contains m current rto seg w info h c o =
    let s = process_segment_lem current rto seg w info h c o in (s.0 m, s.1, s.2)
