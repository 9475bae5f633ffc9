-- ===== src/Kcp/Sending/Worker.antt =====
-- SendingWorker: numbers for the packets pushed, acknowledgements, and the two flow windows.
use xray_core_python.Prelude.{
  ℕ, ◌+◌, ◌*◌, ◌/◌, Bool, true, false, ◌||◌, Option, none, some, List, [], ◌∷◌, ltb, leb, ◌==◌,
  if◌then◌else◌, u32, sub32,
}
use xray_core_python.Kcp.Config.{Config, get_sending_in_flight_size, get_sending_buffer_size}
use xray_core_python.Kcp.Segment.{DataSegment, AckSegment, is_empty as is_empty_ack}
use xray_core_python.Kcp.RoundTripInfo.{RoundTripInfo, update}
use xray_core_python.Kcp.Sending.{
  SendingWindow, len, is_empty, push_segment, clear, handle_fast_ack, write, flush_window, remove,
}

pub record SendingWorker : Type 0 where
  pub window : SendingWindow
  pub first_unacknowledged : ℕ
  pub next_number : ℕ
  pub remote_next_number : ℕ
  pub control_window : ℕ
  pub fast_resend : ℕ
  pub window_size : ℕ
  pub first_unacknowledged_updated : Bool
  pub closed : Bool

unfoldable pub new_sending_worker : Config → SendingWorker
new_sending_worker config = record {
  window = record { cache = []; total_in_flight_size = 0 };
  first_unacknowledged = 0;
  next_number = 0;
  remote_next_number = 32;
  control_window = get_sending_in_flight_size config;
  fast_resend = 2;
  window_size = get_sending_buffer_size config;
  first_unacknowledged_updated = false;
  closed = false;
}

-- `SendingWindow.Release` takes every segment out.
unfoldable pub release : SendingWorker → SendingWorker
release w = record w { window = record (w.window) { cache = [] }; closed = true }

-- `FirstNumber`, of a window that is not empty.
abbrev pub first_or : ℕ → List DataSegment → ℕ
first_or next [] = next
first_or next (seg ∷ l) = seg.number

unfoldable pub find_first_unacknowledged : SendingWorker → SendingWorker
find_first_unacknowledged w =
    let first = first_or w.next_number w.window.cache in
    record w {
      first_unacknowledged = first;
      first_unacknowledged_updated =
          if w.first_unacknowledged == first then w.first_unacknowledged_updated else true;
    }

unfoldable pub process_receiving_next : ℕ → SendingWorker → SendingWorker
unfolding find_first_unacknowledged
process_receiving_next next_number w =
    find_first_unacknowledged (record w { window = clear next_number w.window })

unfoldable pub process_ack : ℕ → SendingWorker → SendingWorker × Bool
unfolding find_first_unacknowledged
process_ack number w =
    if ltb 0x7FFFFFFF (sub32 number w.first_unacknowledged)
      || ltb (sub32 number w.next_number) 0x7FFFFFFF
    then (w, false)
    else let (window, removed) = remove number w.window in
      let w' = record w { window = window } in
      ((if removed then find_first_unacknowledged w' else w'), removed)

-- The loop over the numbers of an acknowledgement: the largest number, and whether it was removed.
unfoldable pub process_acks : List ℕ → ℕ → Bool → SendingWorker → SendingWorker × ℕ × Bool
process_acks [] maxack maxack_removed w = (w, maxack, maxack_removed)
process_acks (number ∷ ns) maxack maxack_removed w =
    let (w', removed) = process_ack number w in
    let larger = ltb maxack number in
    process_acks ns (if larger then number else maxack) (if larger then removed else maxack_removed)
      w'

-- The worker and the connection's round-trip estimate after an acknowledgement.
unfoldable pub process_segment :
    ℕ → AckSegment → ℕ → SendingWorker → RoundTripInfo → SendingWorker × RoundTripInfo
unfolding process_receiving_next
process_segment current seg rto w info =
    if w.closed
    then (w, info)
    else let w1 = record w {
      remote_next_number =
          if ltb w.remote_next_number seg.receiving_window
          then seg.receiving_window
          else w.remote_next_number;
    } in
      let w2 = process_receiving_next seg.receiving_next w1 in
      if is_empty_ack seg
      then (w2, info)
      else let (w3, maxack, maxack_removed) = process_acks seg.number_list 0 false w2 in
        if maxack_removed
        then (
          record w3 { window = handle_fast_ack maxack rto w3.window },
          if ltb (sub32 current seg.timestamp) 10000
              then update (sub32 current seg.timestamp) current info
              else info,
        )
        else (w3, info)

unfoldable pub push : List ℕ → SendingWorker → SendingWorker × Bool
push b w =
    if w.closed then (w, false) else if ltb w.window_size (len w.window) then (w, false) else (
      record w {
        window = push_segment w.next_number b w.window;
        next_number = u32 (w.next_number + 1);
      },
      true,
    )

unfoldable pub on_packet_loss : Config → ℕ → ℕ → SendingWorker → SendingWorker
on_packet_loss config timeout loss_rate w =
    if timeout == 0
    then w
    else let c1 : ℕ =
        if leb 15 loss_rate then u32 (3 * w.control_window) / 4 else w.control_window in
      let c2 : ℕ = if leb loss_rate 5 then u32 (c1 + c1 / 4) else c1 in
      let c3 : ℕ = if ltb c2 16 then 16 else c2 in
      let cwnd = get_sending_in_flight_size config in
      record w { control_window = if ltb cwnd c3 then cwnd else c3 }

-- How many packets `Flush` may send.
unfoldable pub send_quota : Config → SendingWorker → ℕ
send_quota config w =
    let c1 = get_sending_in_flight_size config in
    let ahead = sub32 w.remote_next_number w.first_unacknowledged in
    let c2 : ℕ = if ltb ahead c1 then ahead else c1 in
    let c3 : ℕ = if ltb w.control_window c2 then w.control_window else c2 in
    u32 (c3 * config.cwnd_multiplier)

-- The worker once the window is flushed: the loss handler runs where the window calls it.
unfoldable pub after_flush : Config → ℕ → SendingWindow → Option ℕ → SendingWorker → SendingWorker
after_flush config timeout window none w = record w {
  window = window;
  first_unacknowledged_updated = false;
}
after_flush config timeout window (some rate) w =
    record (on_packet_loss config timeout rate (record w { window = window })) {
      first_unacknowledged_updated = false;
    }

-- The worker after `Flush`, the segments that go out, and whether a ping follows.
unfoldable pub flush :
    ℕ → Bool → Config → ℕ → ℕ → SendingWorker → SendingWorker × List DataSegment × Bool
unfolding send_quota after_flush
flush conversation closing config timeout current w =
    if w.closed
    then (w, [], false)
    else if is_empty w.window
    then (record w { first_unacknowledged_updated = false }, [], w.first_unacknowledged_updated)
    else let (window, written, loss) =
        flush_window current timeout (send_quota config w)
          (write conversation closing w.first_unacknowledged) w.window in
      (after_flush config timeout window loss w, written, false)

unfoldable pub close_write : SendingWorker → SendingWorker
close_write w = record w { window = clear 0xFFFFFFFF w.window }

abbrev pub nothing_pending : SendingWorker → Bool
nothing_pending w = is_empty w.window
