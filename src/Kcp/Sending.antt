-- ===== src/Kcp/Sending.antt =====
-- xray-go/transport/internet/kcp/sending.go: packets sent and not yet acknowledged, in the order
-- of their numbers. The segments of the list are shared with nobody, so a visitor's writes to one
-- are a new list. What the worker reads of its connection is an argument.
pub mod Window
pub mod Worker
pub mod Order
pub mod Acks
pub mod Flushed
pub mod History
pub mod Transmit
pub mod Control
use xray_core_python.Prelude.{
  ℕ, zero, suc, ◌+◌, ◌-◌, ◌*◌, ◌/◌, ◌%◌, ◌^◌, Bool, true, false, ◌&&◌, ◌||◌, not, none, some, List,
  [], ◌∷◌, ◌++◌, map, ltb, leb, ◌==◌, if◌then◌else◌, length, u32, sub32,
}
use mathlib.Core.Option
use mathlib.Core.Option.{Option}
use xray_core_python.Kcp.Config.{Config, get_sending_in_flight_size, get_sending_buffer_size}
use xray_core_python.Kcp.Segment.{
  DataSegment, AckSegment, new_data_segment, segment_option_close, is_empty as is_empty_ack,
}
use xray_core_python.Kcp.RoundTripInfo.{RoundTripInfo, update}

pub record SendingWindow : Type 0 where
  pub cache : List DataSegment
  pub total_in_flight_size : ℕ

-- `SendingWindow.Len`, a uint32.
abbrev pub len : SendingWindow → ℕ
len sw = u32 (length sw.cache)

abbrev pub is_empty : SendingWindow → Bool
is_empty sw = length sw.cache == 0

unfoldable pub push_segment : ℕ → List ℕ → SendingWindow → SendingWindow
push_segment number b sw = record sw {
  cache = sw.cache ++ (record new_data_segment { number = number; payload = some b } ∷ []);
}

-- The loop of `Clear`, from the front of the list.
drop_below : ℕ → List DataSegment → List DataSegment
drop_below una [] = []
drop_below una (seg ∷ l) =
    let rest = drop_below una l in if leb una seg.number then seg ∷ l else rest

unfoldable pub clear : ℕ → SendingWindow → SendingWindow
unfolding drop_below
clear una sw = record sw { cache = drop_below una sw.cache }

-- `Visit`: the visitor returns whether to go on, its own state, and the segment as it leaves it.
visit {ℓ} :
    {S : Type ℓ}
    → (S → DataSegment → Bool × S × DataSegment)
    → S
    → List DataSegment
    → S × List DataSegment
visit visitor s [] = (s, [])
visit visitor s (seg ∷ l) =
    let (go_on, s', seg') = visitor s seg in
    let (s'', l') = visit visitor s' l in if go_on then (s'', seg' ∷ l') else (s', seg' ∷ l)

fast_ack_visitor : ℕ → ℕ → Unit {0} → DataSegment → Bool × Unit {0} × DataSegment
fast_ack_visitor number rto s seg =
    if number == seg.number || ltb 0x7FFFFFFF (sub32 number seg.number)
    then (false, s, seg)
    else if ltb 0 seg.transmit && ltb (rto / 3) seg.timeout
    then (true, s, record seg { timeout = sub32 seg.timeout (rto / 3) })
    else (true, s, seg)

unfoldable pub handle_fast_ack : ℕ → ℕ → SendingWindow → SendingWindow
unfolding visit fast_ack_visitor
handle_fast_ack number rto sw = record sw {
  cache = (visit (fast_ack_visitor number rto) tt sw.cache).1;
}

-- `SendingWorker.Write`: the fields that it fills in; `closing` is `State() == StateReadyToClose`.
unfoldable pub write : ℕ → Bool → ℕ → DataSegment → DataSegment
write conversation closing first seg = record seg {
  conv = conversation;
  sending_next = first;
  option = if closing then segment_option_close else 0;
}

-- The variables of the visitor of `Flush`, and the segments that it has written.
pub record Flushing : Type 0 where
  pub lost : ℕ
  pub in_flight_size : ℕ
  pub total_in_flight_size : ℕ
  pub written : List DataSegment

flush_visitor :
    ℕ → ℕ → ℕ → (DataSegment → DataSegment) → Flushing → DataSegment → Bool × Flushing × DataSegment
flush_visitor current rto max_in_flight fill_in f seg =
    if leb 0x7FFFFFFF (sub32 current seg.timeout)
    then (true, f, seg)
    else let out = fill_in (record seg {
      timeout = u32 (current + rto);
      timestamp = current;
      transmit = u32 (seg.transmit + 1);
    }) in
      let first = seg.transmit == 0 in
      (
        ltb (u32 (f.in_flight_size + 1)) max_in_flight,
        record {
          lost = if first then f.lost else u32 (f.lost + 1);
          in_flight_size = u32 (f.in_flight_size + 1);
          total_in_flight_size =
              if first then u32 (f.total_in_flight_size + 1) else f.total_in_flight_size;
          written = f.written ++ (out ∷ []);
        },
        out,
      )

-- The window after `Flush`, the segments written, and the rate for `onPacketLoss`, if it is called.
unfoldable pub flush_window :
    ℕ
    → ℕ
    → ℕ
    → (DataSegment → DataSegment)
    → SendingWindow
    → SendingWindow × List DataSegment × Option ℕ
unfolding visit flush_visitor
flush_window current rto max_in_flight fill_in sw =
    if is_empty sw
    then (sw, [], none)
    else let start : Flushing = record {
      lost = 0;
      in_flight_size = 0;
      total_in_flight_size = sw.total_in_flight_size;
      written = [];
    } in
      let (f, cache) = visit (flush_visitor current rto max_in_flight fill_in) start sw.cache in
      (
        record { cache = cache; total_in_flight_size = f.total_in_flight_size },
        f.written,
        if ltb 0 f.in_flight_size && not (f.total_in_flight_size == 0)
            then some (u32 (f.lost * 100) / f.total_in_flight_size)
            else none,
      )

-- The loop of `Remove` (a count of 0 is left alone, as `- 1` does): the list without the segment, if it is found before a larger number.
take_out : ℕ → List DataSegment → Option (List DataSegment)
take_out number [] = none
take_out number (seg ∷ l) =
    let rest = Option.map (λ l'. seg ∷ l') (take_out number l) in
    if ltb number seg.number then none else if seg.number == number then some l else rest

unfoldable pub remove : ℕ → SendingWindow → SendingWindow × Bool
unfolding take_out
remove number sw = elim (take_out number sw.cache) [
  | none ↦ (sw, false)
  | some l ↦ (record { cache = l; total_in_flight_size = sw.total_in_flight_size - 1 }, true)
]
