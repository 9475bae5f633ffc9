-- ===== src/Kcp/Sending/Transmit.antt =====
-- What `SendingWindow.Flush` and `HandleFastAck` do to the window, and which packets go out.
use xray_core_python.Prelude.{
  ℕ, zero, suc, ◌+◌, ◌-◌, ◌<◌, ◌≡◌, refl, sym, ap, ap₂, ◌∙◌, max, Bool, true, false, List, [], ◌∷◌,
  ◌++◌, map, ◌==◌, leb, ltb, if◌then◌else◌, take, append_assoc, append-nil, u32, sub32, IsU32,
  arith, Bool-cases, inl, inr,
}
use xray_core_python.Kcp.Segment.{DataSegment}
use xray_core_python.Kcp.Sending.{
  SendingWindow, Flushing, visit, flush_visitor, flush_window, fast_ack_visitor, handle_fast_ack,
  is_empty,
}
use xray_core_python.Kcp.Sending.Window.{numbers}

-- A visitor that keeps the numbers of the segments keeps those of the list.
numbers-visit {ℓ} :
    {S : Type ℓ} (visitor : S → DataSegment → Bool × S × DataSegment)
    → ((s : S) (seg : DataSegment) → (visitor s seg).2.number ≡ seg.number)
    → (s : S) (l : List DataSegment) → numbers (visit visitor s l).1 ≡ numbers l
unfolding visit
numbers-visit visitor h s [] = refl
numbers-visit visitor h s (seg ∷ l) = elim (Bool-cases (visitor s seg).0) [
  | inl go_on ↦ rw go_on (ap₂ ◌∷◌ (h s seg) (numbers-visit visitor h (visitor s seg).1 l))
  | inr stop ↦ rw stop (ap (λ n. n ∷ numbers l) (h s seg))
]

pub numbers-handle_fast_ack :
    (number rto : ℕ) (sw : SendingWindow)
    → numbers (handle_fast_ack number rto sw).cache ≡ numbers sw.cache
unfolding handle_fast_ack
numbers-handle_fast_ack number rto sw =
    numbers-visit (fast_ack_visitor number rto) (λ s seg. ground arith) tt sw.cache

-- The first segment of the list, by the visitor's answer.
visit_first {ℓ} :
    {S : Type ℓ} (visitor : S → DataSegment → Bool × S × DataSegment) (s s' : S)
    (seg seg' : DataSegment) (l : List DataSegment) (b : Bool)
    → visitor s seg ≡ (b, s', seg')
    → (visit visitor s (seg ∷ l)).0 ≡ (if b then (visit visitor s' l).0 else s')
unfolding visit
visit_first visitor s s' seg seg' l true e = rw (e, visit)
visit_first visitor s s' seg seg' l false e = rw (e, visit)

pub take-nil {ℓ} : {A : Type ℓ} (n : ℕ) → take {A = A} n [] ≡ []
take-nil zero = refl
take-nil (suc n) = refl

module _ (current rto quota : ℕ) (fill_in : DataSegment → DataSegment) where
  -- The timer of a packet has run out, or was never set.
  abbrev pub is_expired : DataSegment → Bool
  is_expired seg = ltb (sub32 current seg.timeout) 0x7FFFFFFF

  -- A packet as it is sent.
  abbrev pub stamped_input : DataSegment → DataSegment
  stamped_input seg = record seg {
    timeout = u32 (current + rto);
    timestamp = current;
    transmit = u32 (seg.transmit + 1);
  }

  abbrev pub stamped : DataSegment → DataSegment
  stamped seg = fill_in (stamped_input seg)

  abbrev pub expired : List DataSegment → List DataSegment
  expired [] = []
  expired (seg ∷ l) = let rest = expired l in if is_expired seg then seg ∷ rest else rest

  visit_wait :
      (f : Flushing) (seg : DataSegment) (l : List DataSegment)
      → is_expired seg ≡ false
      → (visit (flush_visitor current rto quota fill_in) f (seg ∷ l)).0
        ≡ (visit (flush_visitor current rto quota fill_in) f l).0
  unfolding visit flush_visitor
  visit_wait f seg l e = ground arith

  -- The visitor's state after a packet is sent.
  abbrev counted : Flushing → DataSegment → Flushing
  counted f seg = record {
    lost = if seg.transmit == 0 then f.lost else u32 (f.lost + 1);
    in_flight_size = u32 (f.in_flight_size + 1);
    total_in_flight_size =
        if seg.transmit == 0 then u32 (f.total_in_flight_size + 1) else f.total_in_flight_size;
    written = f.written ++ (stamped seg ∷ []);
  }

  visitor_send :
      (f : Flushing) (seg : DataSegment)
      → is_expired seg ≡ true
      → flush_visitor current rto quota fill_in f seg
        ≡ (ltb (u32 (f.in_flight_size + 1)) quota, counted f seg, stamped seg)
  unfolding flush_visitor
  visitor_send f seg e =
      let due : leb 0x7FFFFFFF (sub32 current seg.timeout) ≡ false = ground arith in rw due

  visit_send :
      (f : Flushing) (seg : DataSegment) (l : List DataSegment)
      → is_expired seg ≡ true
      → (visit (flush_visitor current rto quota fill_in) f (seg ∷ l)).0 ≡ (
          if ltb (u32 (f.in_flight_size + 1)) quota
          then (visit (flush_visitor current rto quota fill_in) (counted f seg) l).0
          else counted f seg)
  visit_send f seg l e =
      visit_first (flush_visitor current rto quota fill_in) f (counted f seg) seg (stamped seg) l
        (ltb (u32 (f.in_flight_size + 1)) quota) (visitor_send f seg e)

  written-visit :
      (f : Flushing) (l : List DataSegment)
      → IsU32 quota
      → f.in_flight_size < max 1 quota
      → (visit (flush_visitor current rto quota fill_in) f l).0.written
        ≡ f.written ++ map stamped (take (max 1 quota - f.in_flight_size) (expired l))
  written-visit f [] q h =
      rw (take-nil {A = DataSegment} (max 1 quota - f.in_flight_size), append-nil)
        (unfold visit in refl)
  written-visit f (seg ∷ l) q h = elim (Bool-cases (is_expired seg)) [
    | inl out ↦
        let left : max 1 quota - f.in_flight_size ≡ suc (max 1 quota - (f.in_flight_size + 1)) =
          omega arith in
        elim (Bool-cases (ltb (u32 (f.in_flight_size + 1)) quota)) [
          | inl more ↦
              let same : u32 (f.in_flight_size + 1) ≡ f.in_flight_size + 1 = omega arith in
              rw (visit_send f seg l out, out, more, left)
                (written-visit (counted f seg) l q (ground arith)
                  ∙ rw same (append_assoc f.written (stamped seg ∷ []) _))
          | inr last ↦
              let none_left : max 1 quota - (f.in_flight_size + 1) ≡ 0 = ground arith in
              rw (visit_send f seg l out, out, last, left, none_left)
        ]
    | inr wait ↦ rw (visit_wait f seg l wait, wait) (written-visit f l q h)
  ]

  numbers-visit_flush :
      ((seg : DataSegment) → (fill_in seg).number ≡ seg.number)
      → (f : Flushing) (l : List DataSegment)
      → numbers (visit (flush_visitor current rto quota fill_in) f l).1 ≡ numbers l
  unfolding flush_visitor
  numbers-visit_flush h =
      numbers-visit (flush_visitor current rto quota fill_in)
        (λ f seg. ground (arith, h (stamped_input seg)))

  -- A flush sends, in the order of the window and stamped with the time, the packets whose timers
  -- have run out, up to the quota but one at least, and no others; the window keeps its numbers.
  -- The quota is a word, and what the worker fills in keeps a packet's number.
  pub flush_window-expired :
      (sw : SendingWindow)
      → IsU32 quota
      → ((seg : DataSegment) → (fill_in seg).number ≡ seg.number)
      → let (sw', written, loss) = flush_window current rto quota fill_in sw in
        (written ≡ map stamped (take (max 1 quota) (expired sw.cache)))
        × (numbers sw'.cache ≡ numbers sw.cache)
  unfolding flush_window
  flush_window-expired sw q h =
      let start : Flushing = record {
        lost = 0;
        in_flight_size = 0;
        total_in_flight_size = sw.total_in_flight_size;
        written = [];
      } in
      let whole : max 1 quota - 0 ≡ max 1 quota = omega arith in
      elim (Bool-cases (is_empty sw)) [
        | inl empty ↦
            let nil : sw.cache ≡ [] = ground arith in
            rw empty (
              sym (
                  ap (λ l. map stamped (take (max 1 quota) (expired l))) nil
                  ∙ ap (map stamped) (take-nil {A = DataSegment} (max 1 quota))),
              refl,
            )
        | inr some_left ↦ rw some_left (
          written-visit start sw.cache q (omega arith)
              ∙ ap (λ n. map stamped (take n (expired sw.cache))) whole,
          numbers-visit_flush h start sw.cache,
        )
      ]
