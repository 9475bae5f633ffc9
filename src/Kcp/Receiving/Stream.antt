-- ===== src/Kcp/Receiving/Stream.antt =====
-- The byte stream that a reader gets, over any run of the worker's operations.
use xray_core_python.Prelude.{
  ℕ, zero, suc, ◌+◌, ◌≡◌, refl, sym, ap, ap₂, ◌∙◌, Bool, List, [], ◌∷◌, ◌++◌, flatten, append_assoc,
  u32, All, arith,
}
use xray_core_python.Kcp.Segment.{DataSegment, payload_bytes}
use xray_core_python.Kcp.Receiving.{
  ReceivingWorker, read_multi_buffer, process_segment, process_sending_next, read, flush,
}
use xray_core_python.Kcp.Receiving.Delivery.{advance, AreGenuine, bytes_from}
use xray_core_python.Kcp.Receiving.{new_receiving_worker}
use xray_core_python.Kcp.Config.{Config}
use xray_core_python.Kcp.Receiving.Reading.{
  left, Progress, still, process_segment-Progress, read_multi_buffer-Progress, read-Progress,
}

-- What happens to a worker.
-- What happens to a worker that is in use; `Release` is left out.
pub data Event : Type 0 where
  arrive : DataSegment → Event
  sending_next : ℕ → Event
  read_all : Event
  read_some : ℕ → Event
  flush_acks : ℕ → Bool → ℕ → ℕ → Event

-- The worker after an event, and the bytes that the reader gets.
pub step : Event → ReceivingWorker → ReceivingWorker × List ℕ
step (arrive seg) w = (process_segment seg w, [])
step (sending_next number) w = (process_sending_next number w, [])
step read_all w = let (w', mb) = read_multi_buffer w in (w', flatten mb)
step (read_some room) w = read room w
step (flush_acks conversation closing current timeout) w =
    ((flush conversation closing current timeout w).0, [])

pub run : List Event → ReceivingWorker → ReceivingWorker × List ℕ
run [] w = (w, [])
run (e ∷ es) w = let (w', bytes) = step e w in let (w'', more) = run es w' in (w'', bytes ++ more)

module _ (stream : ℕ → List ℕ) where
  -- A packet that arrives carries what the sender's stream has under its number.
  abbrev pub IsGenuine : Event → Type 0
  IsGenuine (arrive seg) = payload_bytes seg ≡ stream seg.number
  IsGenuine _ = Unit

  step-Progress :
      (e : Event) (w : ReceivingWorker)
      → IsGenuine e
      → AreGenuine stream w.window.cache
      → Progress stream w (step e w).0 (step e w).1
  unfolding step
  step-Progress (arrive seg) w h g = process_segment-Progress stream seg w h g
  step-Progress (sending_next number) w h g =
      unfold process_sending_next in still stream w _ refl refl g
  step-Progress read_all w h g = (read_multi_buffer-Progress stream w g).0
  step-Progress (read_some room) w h g = read-Progress stream room w g
  step-Progress (flush_acks conversation closing current timeout) w h g =
      unfold flush in still stream w _ refl refl g

  bytes_from-add :
      (n j k : ℕ)
      → bytes_from stream n (j + k) ≡ bytes_from stream n j ++ bytes_from stream (advance n j) k
  bytes_from-add n zero k = let e : 0 + k ≡ k = omega arith in rw e
  bytes_from-add n (suc j) k =
      let e : suc j + k ≡ suc (j + k) = omega arith in
      rw e (
        ap (λ t. stream n ++ t) (bytes_from-add (u32 (n + 1)) j k)
        ∙ sym (
            append_assoc (stream n) (bytes_from stream (u32 (n + 1)) j)
              (bytes_from stream (advance (u32 (n + 1)) j) k)))

  advance-add : (n j k : ℕ) → advance n (j + k) ≡ advance (advance n j) k
  advance-add n zero k = let e : 0 + k ≡ k = omega arith in rw e
  advance-add n (suc j) k =
      let e : suc j + k ≡ suc (j + k) = omega arith in rw e (advance-add (u32 (n + 1)) j k)

  run-Progress :
      (es : List Event) (w : ReceivingWorker)
      → All IsGenuine es
      → AreGenuine stream w.window.cache
      → Progress stream w (run es w).0 (run es w).1
  unfolding run
  run-Progress [] w h g = still stream w w refl refl g
  run-Progress (e ∷ es) w h g =
      let (w', bytes) = step e w in
      let (w'', more) = run es w' in
      let p = step-Progress e w h.0 g in
      let q = run-Progress es w' h.1 p.genuine in
      let first = bytes_from stream w.next_number p.count in
      record {
        count = p.count + q.count;
        bytes_eq =
            append_assoc bytes more (left w'')
            ∙ ap (λ t. bytes ++ t) q.bytes_eq
            ∙ sym (append_assoc bytes (left w') (bytes_from stream w'.next_number q.count))
            ∙ ap₂ (λ s n. s ++ bytes_from stream n q.count) p.bytes_eq p.next_eq
            ∙ append_assoc (left w) first
                (bytes_from stream (advance w.next_number p.count) q.count)
            ∙ ap (λ t. left w ++ t) (sym (bytes_from-add w.next_number p.count q.count));
        next_eq =
            q.next_eq
            ∙ ap (λ n. advance n q.count) p.next_eq
            ∙ sym (advance-add w.next_number p.count q.count);
        genuine = q.genuine;
      }

  -- Over any run of arrivals, in whatever order and how often, of notices of what the sender has
  -- passed, of both reads and of flushes of the acknowledgements, by a new worker that is not
  -- released meanwhile, the bytes that the reader has got, and then those put aside, are those of the
  -- sender's packets 0, 1, 2 and so on: none is lost, repeated or out of order. Each packet that
  -- arrives carries the sender's bytes.
  pub run-in_order :
      (config : Config) (mss : ℕ) (es : List Event)
      → All IsGenuine es
      → let (w, bytes) = run es (new_receiving_worker config mss) in
        (count : ℕ) × (bytes ++ left w ≡ bytes_from stream 0 count)
        × (w.next_number ≡ advance 0 count)
  unfolding new_receiving_worker
  run-in_order config mss es h =
      let p = run-Progress es (new_receiving_worker config mss) h tt in
      (p.count, p.bytes_eq, p.next_eq)
