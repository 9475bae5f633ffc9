-- ===== src/Kcp/Sending/Control.antt =====
-- How much the worker lets out and takes in: the loss-driven window, the quota, the buffer.
use xray_core_python.Prelude.{
  ℕ, ◌+◌, ◌*◌, ◌/◌, ◌^◌, ◌≤◌, ◌<◌, ◌≡◌, ◌⊎◌, leb, if◌then◌else◌, min, max, true, false, List,
  length, length-append, u32, sub32, arith,
}
use xray_core_python.Kcp.Config.{Config, get_sending_in_flight_size}
use xray_core_python.Kcp.Sending.{SendingWindow, push_segment}
use xray_core_python.Kcp.Sending.Worker.{SendingWorker, on_packet_loss, send_quota, push}

-- With a timeout set, a window within the in-flight size, and that size below 2 ^ 30, no step of
-- the loss handler wraps: the window is cut to three quarters at 15 % loss and more, grown by a
-- quarter at 5 % and less, and then held between 16 packets and the configured in-flight size, the
-- latter where the two conflict.
pub on_packet_loss_window :
    (config : Config) (timeout rate : ℕ) (w : SendingWorker)
    → 0 < timeout
    → w.control_window ≤ get_sending_in_flight_size config
    → get_sending_in_flight_size config < 2 ^ 30
    → let cwnd = get_sending_in_flight_size config in
      let next = (on_packet_loss config timeout rate w).control_window in
      (min 16 cwnd ≤ next)
      × (next ≤ cwnd)
      × (next
          ≡ min cwnd (
              max 16 (
                if leb 15 rate
                then 3 * w.control_window / 4
                else if leb rate 5
                then w.control_window + w.control_window / 4
                else w.control_window)))
unfolding on_packet_loss
on_packet_loss_window config timeout rate w t c b = (ground arith, ground arith, ground arith)

-- With one window's multiplier, and an in-flight size that is a word, a flush is let out no more
-- packets than the least of the configured size, the loss-driven window, and what the peer has room
-- for after the first unacknowledged packet.
pub send_quota_bounds :
    (config : Config) (w : SendingWorker)
    → config.cwnd_multiplier ≡ 1
    → get_sending_in_flight_size config < 2 ^ 32
    → send_quota config w
      ≡ min
          (get_sending_in_flight_size config)
          (min w.control_window (sub32 w.remote_next_number w.first_unacknowledged))
unfolding send_quota
send_quota_bounds config w m b = ground arith

length-push_segment :
    (number : ℕ) (b : List ℕ) (sw : SendingWindow)
    → length (push_segment number b sw).cache ≡ length sw.cache + 1
unfolding push_segment
length-push_segment number b sw = omega (arith, length-append sw.cache _)

-- A buffer of fewer than 2 ^ 32 packets that holds at most one more than its size takes a packet,
-- under the next number, while it holds no more than its size; it refuses one only where it is
-- closed or holds more than its size, and then stays as it is. It holds at most one more than its
-- size again.
pub push_bounds :
    (b : List ℕ) (w : SendingWorker)
    → w.window_size + 1 < 2 ^ 32
    → length w.window.cache ≤ w.window_size + 1
    → let (w', taken) = push b w in
      (length w'.window.cache ≤ w.window_size + 1)
      × ((taken ≡ true)
            × (length w'.window.cache ≡ length w.window.cache + 1)
            × (w'.next_number ≡ u32 (w.next_number + 1))
          ⊎ (taken ≡ false)
            × (w' ≡ w)
            × ((w.closed ≡ true) ⊎ (w.window_size < length w.window.cache)))
unfolding push
push_bounds b w s h = ground (arith, length-push_segment w.next_number b w.window)
