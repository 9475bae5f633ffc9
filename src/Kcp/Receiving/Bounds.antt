-- ===== src/Kcp/Receiving/Bounds.antt =====
-- What the worker holds on to is bounded: packets in its window, and three slices of one length.
use xray_core_python.Prelude.{
  ℕ, zero, suc, ◌+◌, ◌<◌, ◌≤◌, ◌≡◌, ◌⊎◌, refl, ap, true, false, Option, none, some, ◌++◌, List, [],
  ◌∷◌, ◌==◌, leb, length, length-append, u32, sub32, IsU32, All, arith, Bool-cases, Option-cases,
  inl, inr,
}
use xray_core_python.Kcp.Segment.{DataSegment}
use xray_core_python.Kcp.AckList
use xray_core_python.Kcp.AckList.{AckList}
use xray_core_python.Kcp.AckList.Compact.{IsAligned, keep, clear-keep, length-keep}
use xray_core_python.Kcp.Receiving.{
  ReceivingWindow, ReceivingWorker, delete, find, set, collect, read_multi_buffer, process_segment,
  process_sending_next,
}
use xray_core_python.Kcp.Receiving.Delivery.{
  taken, collect-none, collect-some, read_multi_buffer_fresh, read_multi_buffer_left_over,
}

-- Every number in the window lies less than `size` after `next`.
abbrev pub InWindow : ℕ → ℕ → List (ℕ × DataSegment) → Type 0
InWindow next size m = All (λ (e : ℕ × DataSegment). IsU32 e.0 × (sub32 e.0 next < size)) m

delete-InWindow :
    (next size : ℕ) (m : List (ℕ × DataSegment))
    → IsU32 next
    → InWindow next size m
    → InWindow (u32 (next + 1)) size (delete next m)
delete-InWindow next size [] n h = tt
delete-InWindow next size ((k, v) ∷ m) n h = elim (Bool-cases (k == next)) [
  | inl same ↦ rw same (delete-InWindow next size m n h.1)
  | inr other ↦ rw other ((h.0.0, ground arith), delete-InWindow next size m n h.1)
]

set-InWindow :
    (id next size : ℕ) (seg : DataSegment) (w : ReceivingWindow)
    → IsU32 id
    → sub32 id next < size
    → InWindow next size w.cache
    → InWindow next size (set id seg w).0.cache
unfolding set
set-InWindow id next size seg w i h g = elim (Option-cases (find id w.cache)) [
  | inl e ↦ rw (e, set) ((i, h), g)
  | inr (v, e) ↦ rw (e, set) g
]

pub record IsBounded (w : ReceivingWorker) : Type 0 where
  pub next_word : IsU32 w.next_number
  pub in_window : InWindow w.next_number w.window_size w.window.cache
  pub aligned : IsAligned w.acklist

clear-IsAligned : (una : ℕ) (l : AckList) → IsAligned l → IsAligned (AckList.clear una l)
clear-IsAligned una l v =
    let (n, t, d) = clear-keep una l v in
    record {
      timestamps_len = rw (n, t) (length-keep una l.numbers l.timestamps v.timestamps_len);
      next_flush_len = rw (n, d) (length-keep una l.numbers l.next_flush v.next_flush_len);
    }

add-IsAligned : (n t : ℕ) (l : AckList) → IsAligned l → IsAligned (AckList.add n t l)
unfolding AckList.add
add-IsAligned n t l v = record {
  timestamps_len = omega (
    arith,
    length-append l.timestamps (t ∷ []),
    length-append l.numbers (n ∷ []),
    v.timestamps_len,
  );
  next_flush_len = omega (
    arith,
    length-append l.next_flush (0 ∷ []),
    length-append l.numbers (n ∷ []),
    v.next_flush_len,
  );
}

-- What the window holds under a number once a packet is there: the packet that was there first.
abbrev pub held : Option DataSegment → DataSegment → Option DataSegment
held none seg = some seg
held (some old) seg = some old

find-set :
    (seg : DataSegment) (w : ReceivingWindow)
    → find seg.number (set seg.number seg w).0.cache ≡ held (find seg.number w.cache) seg
unfolding set
find-set seg w = elim (Option-cases (find seg.number w.cache)) [
  | inl e ↦ let same : (seg.number == seg.number) ≡ true = ground arith in rw (e, set, same) refl
  | inr (v, e) ↦ rw (e, set, e) refl
]

find-set_other :
    (seg : DataSegment) (w : ReceivingWindow) (id : ℕ)
    → (seg.number == id) ≡ false
    → find id (set seg.number seg w).0.cache ≡ find id w.cache
unfolding set
find-set_other seg w id other = elim (Option-cases (find seg.number w.cache)) [
  | inl e ↦ rw (e, set, other) refl
  | inr (v, e) ↦ rw (e, set) refl
]

-- A packet that is stored: the window holds it, or the one that was there first, under its number,
-- and the others as before, and it is to be acknowledged last.
pub record Stored (seg : DataSegment) (w w' : ReceivingWorker) : Type 0 where
  pub own : find seg.number w'.window.cache ≡ held (find seg.number w.window.cache) seg
  pub others :
      (id : ℕ) → (seg.number == id) ≡ false → find id w'.window.cache ≡ find id w.window.cache
  pub acked :
      w'.acklist.numbers
      ≡ keep seg.sending_next w.acklist.numbers w.acklist.numbers ++ (seg.number ∷ [])

-- A packet, whose number is a word, keeps a bounded worker bounded: packets in the window lie less
-- than its size after the next number, and the acknowledgement list has three slices of one length.
-- A packet outside the window changes nothing. One inside is stored: the window holds it, or the one
-- that was there first, under its number, and all others as before; and its number is put behind
-- those to acknowledge that the sender has not passed.
pub process_segment-IsBounded :
    (seg : DataSegment) (w : ReceivingWorker)
    → IsU32 seg.number
    → IsBounded w
    → IsBounded (process_segment seg w)
      × ((w.window_size ≤ sub32 seg.number w.next_number) × (process_segment seg w ≡ w)
          ⊎ (sub32 seg.number w.next_number < w.window_size) × Stored seg w (process_segment seg w))
unfolding process_segment
process_segment-IsBounded seg w h b =
    elim (Bool-cases (leb w.window_size (sub32 seg.number w.next_number))) [
      | inl out ↦ rw out (b, inl (ground arith, refl))
      | inr inside ↦ rw inside (
        record {
          next_word = b.next_word;
          in_window =
              set-InWindow seg.number w.next_number w.window_size seg w.window h (ground arith)
                b.in_window;
          aligned =
              add-IsAligned seg.number seg.timestamp _
                (clear-IsAligned seg.sending_next w.acklist b.aligned);
        },
        inr (
          ground arith,
          record {
            own = find-set seg w.window;
            others = find-set_other seg w.window;
            acked =
                unfold AckList.add in
                ap (λ t. t ++ (seg.number ∷ []))
                  (clear-keep seg.sending_next w.acklist b.aligned).0;
          },
        ),
      )
    ]

pub process_sending_next-IsBounded :
    (number : ℕ) (w : ReceivingWorker) → IsBounded w → IsBounded (process_sending_next number w)
unfolding process_sending_next
process_sending_next-IsBounded number w b = record {
  next_word = b.next_word;
  in_window = b.in_window;
  aligned = clear-IsAligned number w.acklist b.aligned;
}

collect-IsBounded : (fuel : ℕ) (w : ReceivingWorker) → IsBounded w → IsBounded (collect fuel w).0
collect-IsBounded zero w b = unfold collect in b
collect-IsBounded (suc fuel) w b = elim (Option-cases (find w.next_number w.window.cache)) [
  | inl e ↦ rw (collect-none fuel w e) b
  | inr (v, e) ↦ rw (collect-some fuel w v e) (
      collect-IsBounded fuel (taken w) (record {
        next_word = omega arith;
        in_window =
            delete-InWindow w.next_number w.window_size w.window.cache b.next_word b.in_window;
        aligned = b.aligned;
      }))
]

-- Reading a bounded worker moves the window along with the next number, and every packet held stays
-- inside it.
pub read_multi_buffer-IsBounded :
    (w : ReceivingWorker) → IsBounded w → IsBounded (read_multi_buffer w).0
read_multi_buffer-IsBounded w b = elim (Option-cases w.left_over) [
  | inl e ↦ rw (read_multi_buffer_fresh w e) (collect-IsBounded (suc (length w.window.cache)) w b)
  | inr (mb, e) ↦
      rw (read_multi_buffer_left_over w mb e)
        (record { next_word = b.next_word; in_window = b.in_window; aligned = b.aligned })
]
