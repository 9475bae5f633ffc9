-- ===== src/Kcp/Receiving.antt =====
-- xray-go/transport/internet/kcp/receiving.go, ReceivingWindow and ReceivingWorker: packets by
-- number, handed to the reader in order. What the worker reads of its connection (conversation,
-- state, timeout) is an argument. A multi-buffer is the list of its buffers' contents.
pub mod Window
pub mod Delivery
pub mod Reading
pub mod Stream
pub mod Bounds
use xray_core_python.Prelude.{
  ℕ, zero, suc, ◌+◌, ◌-◌, ◌%◌, ◌^◌, Bool, true, false, Option, none, some, List, [], ◌∷◌, ◌++◌, map,
  ltb, leb, ◌==◌, if◌then◌else◌, length, take, drop, u32, sub32, is_some,
}
use xray_core_python.Kcp.Config.{Config, get_receiving_in_flight_size}
use xray_core_python.Kcp.Segment.{
  DataSegment, AckSegment, payload_bytes, data_segment_overhead, segment_option_close,
}
use xray_core_python.Kcp.AckList.{AckList, new_ack_list}
use xray_core_python.Kcp.AckList

-- `map[uint32]*DataSegment`, as an association list.
pub record ReceivingWindow : Type 0 where
  pub cache : List (ℕ × DataSegment)

abbrev pub find : ℕ → List (ℕ × DataSegment) → Option DataSegment
find id [] = none
find id ((k, v) ∷ m) = let rest = find id m in if k == id then some v else rest

abbrev pub delete : ℕ → List (ℕ × DataSegment) → List (ℕ × DataSegment)
delete id [] = []
delete id ((k, v) ∷ m) = let rest = delete id m in if k == id then rest else (k, v) ∷ rest

unfoldable pub set : ℕ → DataSegment → ReceivingWindow → ReceivingWindow × Bool
set id value w = elim (find id w.cache) [
  | some _ ↦ (w, false)
  | none ↦ (record { cache = (id, value) ∷ w.cache }, true)
]

unfoldable pub has : ℕ → ReceivingWindow → Bool
has id w = is_some (find id w.cache)

-- `none` is a nil segment.
unfoldable pub remove : ℕ → ReceivingWindow → ReceivingWindow × Option DataSegment
remove id w = elim (find id w.cache) [
  | none ↦ (w, none)
  | some v ↦ (record { cache = delete id w.cache }, some v)
]

pub record ReceivingWorker : Type 0 where
  pub left_over : Option (List (List ℕ))
  pub window : ReceivingWindow
  pub acklist : AckList
  pub next_number : ℕ
  pub window_size : ℕ

unfoldable pub new_receiving_worker : Config → ℕ → ReceivingWorker
new_receiving_worker config mss = record {
  left_over = none;
  window = record { cache = [] };
  acklist = new_ack_list (u32 (mss + data_segment_overhead));
  next_number = 0;
  window_size = get_receiving_in_flight_size config;
}

unfoldable pub release : ReceivingWorker → ReceivingWorker
release w = record w { left_over = none }

unfoldable pub process_sending_next : ℕ → ReceivingWorker → ReceivingWorker
process_sending_next number w = record w { acklist = AckList.clear number w.acklist }

unfoldable pub process_segment : DataSegment → ReceivingWorker → ReceivingWorker
process_segment seg w =
    let number = seg.number in
    let idx = sub32 number w.next_number in
    if leb w.window_size idx then w else record w {
      acklist = AckList.add number seg.timestamp (AckList.clear seg.sending_next w.acklist);
      window = (set seg.number seg w.window).0;
    }

-- The loop of `ReadMultiBuffer`, on fuel: each round takes an entry out of the window, so as many
-- rounds as the window has entries, and one to find none, are enough (a field of
-- `Delivery.Collected`: the next number is missing).
pub collect : ℕ → ReceivingWorker → ReceivingWorker × List (List ℕ)
collect zero w = (w, [])
collect (suc fuel) w = elim ((remove w.next_number w.window).1) [
  | none ↦ (w, [])
  | some seg ↦
      let (w', mb) = collect fuel (record w {
        window = (remove w.next_number w.window).0;
        next_number = u32 (w.next_number + 1);
      }) in
      (w', payload_bytes seg ∷ mb)
]

unfoldable pub read_multi_buffer : ReceivingWorker → ReceivingWorker × List (List ℕ)
unfolding collect remove
read_multi_buffer w = elim w.left_over [
  | some mb ↦ (record w { left_over = none }, mb)
  | none ↦ collect (suc (length w.window.cache)) w
]

-- buf.MultiBuffer.IsEmpty
abbrev pub all_empty : List (List ℕ) → Bool
all_empty [] = true
all_empty ([] ∷ mb) = all_empty mb
all_empty ((x ∷ b) ∷ mb) = false

-- buf.SplitBytes into a slice of `room` bytes: what is left, and the bytes copied.
unfoldable pub split_bytes : ℕ → List (List ℕ) → List (List ℕ) × List ℕ
split_bytes room [] = ([], [])
split_bytes room (b ∷ mb) =
    let (rest, more) = split_bytes (room - length b) mb in
    if leb (length b) room then (rest, b ++ more) else (drop room b ∷ mb, take room b)

-- `Read` into a slice of `room` bytes: the bytes copied.
unfoldable pub read : ℕ → ReceivingWorker → ReceivingWorker × List ℕ
read room w =
    let (w', mb) = read_multi_buffer w in
    if all_empty mb
    then (w', [])
    else let (rest, bytes) = split_bytes room mb in
      ((if all_empty rest then w' else record w' { left_over = some rest }), bytes)

unfoldable pub is_data_available : ReceivingWorker → Bool
is_data_available w = has w.next_number w.window

-- What `Write` fills in before a segment goes out; `closing` is `State() == StateReadyToClose`.
unfoldable pub write : ℕ → Bool → ReceivingWorker → AckSegment → AckSegment
write conversation closing w seg = record seg {
  conv = conversation;
  receiving_next = w.next_number;
  receiving_window = u32 (w.next_number + w.window_size);
  option = if closing then segment_option_close else 0;
}

-- The worker after `Flush`, and the segments that go out.
unfoldable pub flush : ℕ → Bool → ℕ → ℕ → ReceivingWorker → ReceivingWorker × List AckSegment
flush conversation closing current timeout w =
    let (acks, segs) = AckList.flush current timeout w.acklist in
    (record w { acklist = acks }, map (write conversation closing w) segs)

unfoldable pub update_necessary : ReceivingWorker → Bool
update_necessary w = ltb 0 (length w.acklist.numbers)
