-- ===== src/Kcp/Sending/History.antt =====
-- Runs of the sending worker: what is acknowledged is never sent again.
use xray_core_python.Prelude.{
  ℕ, ◌+◌, ◌-◌, ◌^◌, ◌<◌, ◌≡◌, ◌⊎◌, refl, ap, ◌∙◌, Bool, true, false, List, [], ◌∷◌, ◌++◌, ◌||◌, ltb,
  u32, IsU32, All, arith, Bool-cases, inl, inr,
}
use xray_core_python.Kcp.Config.{Config}
use xray_core_python.Kcp.Segment.{DataSegment, AckSegment}
use xray_core_python.Kcp.RoundTripInfo.{RoundTripInfo}
use xray_core_python.Kcp.Sending.{SendingWindow, clear, push_segment, write}
use xray_core_python.Kcp.Sending.Window.{
  numbers, contains, IsAscending-at_least, IsAscending-append, IsAscending-le, numbers-append,
  clear-at_least, contains-at_least,
}
use xray_core_python.Kcp.Sending.Transmit.{flush_window-expired}
use xray_core_python.Kcp.Sending.Worker.{
  SendingWorker, send_quota, process_receiving_next, process_segment, push, flush, close_write,
  release,
}
use xray_core_python.Kcp.Sending.Order.{IsOrdered, with_window-IsOrdered}
use xray_core_python.Kcp.Sending.Flushed.{
  contains-append, after_flush_lem, sent, flush_cases, contains-flush_window, send_quota-IsU32,
  write-number,
}
use xray_core_python.Kcp.Sending.Acks.{process_receiving_next_lem, process_segment-contains}

-- A packet that is gone stays so, and no segment for it goes out.
pub record Gone (n : ℕ) (w : SendingWorker) : Type 0 where
  pub ordered : IsOrdered w
  pub given : n < w.next_number
  pub missing : contains n (numbers w.window.cache) ≡ false

pub data Move (w : SendingWorker) : SendingWorker → List DataSegment → Type 0 where
  on_ack :
      (current rto : ℕ) (seg : AckSegment) (info : RoundTripInfo)
      → All IsU32 seg.number_list
      → Move w (process_segment current seg rto w info).0 []
  on_receiving_next : (una : ℕ) → Move w (process_receiving_next una w) []
  -- The numbers have not come round, and fewer than 2 ^ 31 are open.
  on_push :
      (b : List ℕ)
      → w.next_number + 1 < 2 ^ 32
      → w.next_number + 1 - w.first_unacknowledged < 0x7FFFFFFF
      → Move w (push b w).0 []
  on_flush :
      (conversation : ℕ) (closing : Bool) (config : Config) (timeout current : ℕ)
      → Move w
          (flush conversation closing config timeout current w).0
          (flush conversation closing config timeout current w).1
  on_close_write : Move w (close_write w) []
  on_release : Move w (release w) []

pub data Moves : SendingWorker → SendingWorker → List DataSegment → Type 0 where
  here : {w : SendingWorker} → Moves w w []
  next :
      {w w' w'' : SendingWorker} {out more : List DataSegment}
      → Move w w' out
      → Moves w' w'' more
      → Moves w w'' (out ++ more)

-- Another worker with the same numbers.
Gone-same :
    (n : ℕ) (w w' : SendingWorker)
    → numbers w'.window.cache ≡ numbers w.window.cache
    → w'.next_number ≡ w.next_number
    → w'.first_unacknowledged ≡ w.first_unacknowledged
    → Gone n w
    → Gone n w'
Gone-same n w w' c e f g = record {
  ordered = record {
    ascending = rw (c, e, f) g.ordered.ascending;
    next_word = rw e g.ordered.next_word;
    narrow = rw (e, f) g.ordered.narrow;
  };
  given = rw e g.given;
  missing = rw c g.missing;
}

process_segment_closed :
    (current rto : ℕ) (seg : AckSegment) (w : SendingWorker) (info : RoundTripInfo)
    → w.closed ≡ true
    → (process_segment current seg rto w info).0 ≡ w
unfolding process_segment
process_segment_closed current rto seg w info e = ground arith

Gone-process_segment :
    (n current rto : ℕ) (seg : AckSegment) (w : SendingWorker) (info : RoundTripInfo)
    → All IsU32 seg.number_list
    → Gone n w
    → Gone n (process_segment current seg rto w info).0
Gone-process_segment n current rto seg w info h g = elim (Bool-cases w.closed) [
  | inl shut ↦ rw (process_segment_closed current rto seg w info shut) g
  | inr live ↦
      let s = process_segment-contains n current rto seg w info h live g.ordered in
      record { ordered = s.2; given = rw s.1 g.given; missing = s.0 ∙ rw g.missing (ground arith) }
]

Gone-process_receiving_next :
    (n una : ℕ) (w : SendingWorker) → Gone n w → Gone n (process_receiving_next una w)
Gone-process_receiving_next n una w g =
    let s = process_receiving_next_lem una w g.ordered in
    record {
      ordered = s.2;
      given = rw s.1 g.given;
      missing =
          ap (contains n) s.0
          ∙ contains-at_least una n (numbers w.window.cache)
          ∙ rw g.missing (ground arith);
    }

-- The packet that a push adds has the next number, which is larger than any before.
push_cases :
    (b : List ℕ) (w : SendingWorker)
    → ((push b w).0 ≡ w)
      ⊎ ((push b w).0 ≡ record w {
        window = push_segment w.next_number b w.window;
        next_number = u32 (w.next_number + 1);
      })
unfolding push
push_cases b w = ground arith

numbers-push_segment :
    (number : ℕ) (b : List ℕ) (sw : SendingWindow)
    → numbers (push_segment number b sw).cache ≡ numbers sw.cache ++ (number ∷ [])
unfolding push_segment
numbers-push_segment number b sw = numbers-append sw.cache _

Gone-push :
    (n : ℕ) (b : List ℕ) (w : SendingWorker)
    → w.next_number + 1 < 2 ^ 32
    → w.next_number + 1 - w.first_unacknowledged < 0x7FFFFFFF
    → Gone n w
    → Gone n (push b w).0
Gone-push n b w h k g = elim (push_cases b w) [
  | inl e ↦ rw e g
  | inr e ↦
      let same : u32 (w.next_number + 1) ≡ w.next_number + 1 = omega arith in
      let ns = numbers-push_segment w.next_number b w.window in
      rw e (
        rw same (record {
          ordered = record {
            ascending = rw ns (
                IsAscending-append w.first_unacknowledged w.next_number (numbers w.window.cache)
                  g.ordered.ascending);
            next_word = h;
            narrow = k;
          };
          given = omega (arith, g.given);
          missing =
              ap (contains n) ns
              ∙ contains-append n (numbers w.window.cache) (w.next_number ∷ [])
              ∙ rw g.missing (ground (arith, g.given));
        }))
]

Gone-flush :
    (n conversation : ℕ) (closing : Bool) (config : Config) (timeout current : ℕ)
    (w : SendingWorker)
    → Gone n w
    → Gone n (flush conversation closing config timeout current w).0
      × (contains n (numbers (flush conversation closing config timeout current w).1) ≡ false)
Gone-flush n conversation closing config timeout current w g =
    elim (flush_cases conversation closing config timeout current w) [
      | inl (same, next_eq, first_eq, none_out) ↦ (
        Gone-same n w _ (ap (λ (sw : SendingWindow). numbers sw.cache) same) next_eq first_eq g,
        rw none_out,
      )
      | inr (e, out) ↦
          let quota = send_quota config w in
          let fill_in = write conversation closing w.first_unacknowledged in
          let q = send_quota-IsU32 config w in
          let h = write-number conversation w.first_unacknowledged closing in
          let sends = sent conversation closing config timeout current w in
          let after = after_flush_lem config timeout sends.0 sends.2 w in
          (
            rw e (
                Gone-same n w _
                  (ap (λ (sw : SendingWindow). numbers sw.cache) after.0
                    ∙ (flush_window-expired current timeout quota fill_in w.window q h).1)
                  after.1 after.2 g),
            rw out (contains-flush_window current timeout quota fill_in n w.window q h g.missing),
          )
    ]

Gone-close_write : (n : ℕ) (w : SendingWorker) → Gone n w → Gone n (close_write w)
unfolding close_write
Gone-close_write n w g =
    let lo = w.first_unacknowledged in
    let ns = numbers w.window.cache in
    let kept = clear-at_least 0xFFFFFFFF lo w.next_number w.window g.ordered.ascending in
    record {
      ordered =
          with_window-IsOrdered w (clear 0xFFFFFFFF w.window)
            (rw kept (IsAscending-at_least lo w.next_number 0xFFFFFFFF ns g.ordered.ascending))
            g.ordered;
      given = g.given;
      missing =
          ap (contains n) kept ∙ contains-at_least 0xFFFFFFFF n ns ∙ rw g.missing (ground arith);
    }

Gone-release : (n : ℕ) (w : SendingWorker) → Gone n w → Gone n (release w)
unfolding release
Gone-release n w g = record {
  ordered = record {
    ascending = IsAscending-le _ _ (numbers w.window.cache) g.ordered.ascending;
    next_word = g.ordered.next_word;
    narrow = g.ordered.narrow;
  };
  given = g.given;
  missing = refl;
}

Move-Gone :
    (n : ℕ) {w w' : SendingWorker} {out : List DataSegment}
    → Move w w' out
    → Gone n w
    → Gone n w' × (contains n (numbers out) ≡ false)
Move-Gone n {w} (on_ack current rto seg info h) g =
    (Gone-process_segment n current rto seg w info h g, refl)
Move-Gone n {w} (on_receiving_next una) g = (Gone-process_receiving_next n una w g, refl)
Move-Gone n {w} (on_push b h k) g = (Gone-push n b w h k g, refl)
Move-Gone n {w} (on_flush conversation closing config timeout current) g =
    Gone-flush n conversation closing config timeout current w g
Move-Gone n {w} on_close_write g = (Gone-close_write n w g, refl)
Move-Gone n {w} on_release g = (Gone-release n w g, refl)

Moves-Gone :
    (n : ℕ) {w w' : SendingWorker} {out : List DataSegment}
    → Moves w w' out
    → Gone n w
    → Gone n w' × (contains n (numbers out) ≡ false)
Moves-Gone n here g = (g, refl)
Moves-Gone n (next {out = out} {more = more} m ms) g =
    let one = Move-Gone n m g in
    let others = Moves-Gone n ms one.0 in
    (
      others.0,
      ap (contains n) (numbers-append out more)
          ∙ contains-append n (numbers out) (numbers more)
          ∙ rw (one.1, others.1),
    )

-- In an open worker with an ordered window: once an acknowledgement names a packet that was given
-- its number, or waits for a later one, no run of the worker, whatever its pushes, flushes and
-- acknowledgements, sends that packet again, as long as the numbers have not come round and fewer
-- than 2 ^ 31 are open.
pub acked-Moves :
    (n current rto : ℕ) (seg : AckSegment) (info : RoundTripInfo) {w w' : SendingWorker}
    {out : List DataSegment}
    → All IsU32 seg.number_list
    → w.closed ≡ false
    → IsOrdered w
    → n < w.next_number
    → (contains n seg.number_list || ltb n seg.receiving_next) ≡ true
    → Moves (process_segment current seg rto w info).0 w' out
    → contains n (numbers out) ≡ false
acked-Moves n current rto seg info {w} h c o k named ms =
    let s = process_segment-contains n current rto seg w info h c o in
    (Moves-Gone n ms (record { ordered = s.2; given = rw s.1 k; missing = s.0 ∙ ground arith })).1
