-- ===== src/Tests/Sending.antt =====
-- The sending side at concrete inputs.
use xray_core_python.Prelude.{
  ◌*◌, ◌/◌, ◌≤◌, ◌≡◌, refl, min, max, true, false, [], ◌∷◌, ◌++◌, map, take, arith,
}
use xray_core_python.Kcp.Config.{get_sending_in_flight_size}
use xray_core_python.Kcp.RoundTripInfo.Bounds.{IsSane}
use xray_core_python.Kcp.Sending.{flush_window}
use xray_core_python.Kcp.Sending.Window.{numbers, contains}
use xray_core_python.Kcp.Sending.Transmit.{expired, stamped, flush_window-expired}
use xray_core_python.Kcp.Sending.Worker.{SendingWorker, process_segment, on_packet_loss, flush}
use xray_core_python.Kcp.Sending.Order.{IsOrdered}
use xray_core_python.Kcp.Sending.Acks.{process_segment-contains}
use xray_core_python.Kcp.Sending.History.{here, next, on_flush, acked-Moves}
use xray_core_python.Kcp.Sending.Control.{on_packet_loss_window}
use xray_core_python.Tests.Data.{config, sending, info, ack}

-- The packets were sent at 0 and are due; the quota lets two of them out.
flush_window-expired_example :
    let (sw', written, loss) = flush_window 2000 250 2 (λ seg. seg) sending.window in
    (written
      ≡ map
          (stamped 2000 250 2 (λ seg. seg))
          (take 2 (expired 2000 250 2 (λ seg. seg) sending.window.cache)))
    × (numbers sw'.cache ≡ 4 ∷ 5 ∷ 7 ∷ [])
flush_window-expired_example =
    flush_window-expired 2000 250 2 (λ seg. seg) sending.window (omega arith) (λ seg. refl)

sending-IsOrdered : IsOrdered sending
sending-IsOrdered = record {
  ascending = (
    omega arith,
    omega arith,
    (omega arith, omega arith, (omega arith, omega arith, omega arith)),
  );
  next_word = omega arith;
  narrow = omega arith;
}

process_segment-contains_example :
    let w' = (process_segment 1100 ack 250 sending info).0 in
    (contains 5 (numbers w'.window.cache) ≡ true) × (w'.next_number ≡ 8) × IsOrdered w'
process_segment-contains_example =
    process_segment-contains 5 1100 250 ack sending info (omega arith, tt) refl sending-IsOrdered

abbrev acked : SendingWorker
acked = (process_segment 1100 ack 250 sending info).0

acked-Moves_example : contains 7 (numbers ((flush 7 false config 250 3000 acked).1 ++ [])) ≡ false
acked-Moves_example =
    acked-Moves 7 1100 250 ack info (omega arith, tt) refl sending-IsOrdered (omega arith) refl
      (next (on_flush 7 false config 250 3000) here)

in_flight_size_example : get_sending_in_flight_size config ≡ 194
unfolding get_sending_in_flight_size
in_flight_size_example = refl

on_packet_loss_window_example :
    let cwnd = get_sending_in_flight_size config in
    let step = (on_packet_loss config 250 20 sending).control_window in
    (min 16 cwnd ≤ step) × (step ≤ cwnd) × (step ≡ min cwnd (max 16 (3 * 194 / 4)))
on_packet_loss_window_example =
    on_packet_loss_window config 250 20 sending (omega arith)
      (omega (arith, in_flight_size_example)) (omega (arith, in_flight_size_example))

info-IsSane : IsSane info
info-IsSane = record {
  variation_small = omega arith;
  srtt_small = omega arith;
  min_rtt_small = omega arith;
}
