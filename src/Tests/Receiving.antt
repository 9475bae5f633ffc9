-- ===== src/Tests/Receiving.antt =====
-- The receiving side at concrete inputs.
use xray_core_python.Prelude.{
  ℕ, ◌≤◌, ◌<◌, ◌≡◌, ◌⊎◌, refl, List, [], ◌∷◌, ◌++◌, length, take, sub32, All, arith,
}
use xray_core_python.Kcp.AckList.{clear, flush}
use xray_core_python.Kcp.AckList.Compact.{clear-keep}
use xray_core_python.Kcp.AckList.Flush.{capacity, sent_numbers, flush-due}
use xray_core_python.Kcp.Receiving.{new_receiving_worker, read_multi_buffer, process_segment}
use xray_core_python.Kcp.Receiving.Delivery.{
  advance, bytes_from, Collected, read_multi_buffer-Collected,
}
use xray_core_python.Kcp.Receiving.Reading.{left}
use xray_core_python.Kcp.Receiving.Bounds.{IsBounded, Stored, process_segment-IsBounded}
use xray_core_python.Kcp.Receiving.Stream.{
  Event, arrive, sending_next, read_all, read_some, run, run-in_order,
}
use xray_core_python.Tests.Data.{config, packet, stream, acklist, receiving}

-- Packet 1 comes before packet 0, and packet 0 twice; the first slice has room for one byte.
abbrev events : List Event
events =
    arrive (packet 1 (stream 1))
    ∷ read_all
    ∷ arrive (packet 0 (stream 0))
    ∷ arrive (packet 0 (stream 0))
    ∷ read_some 1
    ∷ sending_next 1
    ∷ read_all
    ∷ []

run-in_order_example :
    let (w, bytes) = run events (new_receiving_worker config 1332) in
    (count : ℕ) × (bytes ++ left w ≡ bytes_from stream 0 count) × (w.next_number ≡ advance 0 count)
run-in_order_example =
    run-in_order stream config 1332 events (refl, (tt, (refl, (refl, (tt, (tt, (tt, tt)))))))

read_multi_buffer-Collected_example :
    Collected stream receiving (read_multi_buffer receiving).0 (read_multi_buffer receiving).1
read_multi_buffer-Collected_example =
    read_multi_buffer-Collected stream receiving refl (refl, (refl, tt))

receiving-IsBounded : IsBounded receiving
receiving-IsBounded = record {
  next_word = omega arith;
  in_window = ((omega arith, omega arith), ((omega arith, omega arith), tt));
  aligned = record { timestamps_len = refl; next_flush_len = refl };
}

process_segment-IsBounded_example :
    let w' = process_segment (packet 3 (stream 3)) receiving in
    IsBounded w'
    × ((receiving.window_size ≤ sub32 3 receiving.next_number) × (w' ≡ receiving)
        ⊎ (sub32 3 receiving.next_number < receiving.window_size)
          × Stored (packet 3 (stream 3)) receiving w')
process_segment-IsBounded_example =
    process_segment-IsBounded (packet 3 (stream 3)) receiving (omega arith) receiving-IsBounded

clear-keep_example :
    ((clear 3 acklist).numbers ≡ 3 ∷ 4 ∷ [])
    × ((clear 3 acklist).timestamps ≡ 1010 ∷ 1020 ∷ [])
    × ((clear 3 acklist).next_flush ≡ 2500 ∷ 0 ∷ [])
clear-keep_example = clear-keep 3 acklist (record { timestamps_len = refl; next_flush_len = refl })

flush-due_example :
    let (l', segs) = flush 2000 250 acklist in
    ((k : ℕ) × (sent_numbers segs ≡ (1 ∷ 4 ∷ []) ++ take k (3 ∷ [])))
    × All (λ s. length s.number_list ≤ capacity 1350) segs
    × (l'.numbers ≡ 1 ∷ 3 ∷ 4 ∷ [])
    × (l'.timestamps ≡ 1000 ∷ 1010 ∷ 1020 ∷ [])
flush-due_example = flush-due 2000 250 acklist refl refl
