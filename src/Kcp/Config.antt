-- ===== src/Kcp/Config.antt =====
-- xray-go/transport/internet/kcp/config.go: the sizes that the configuration stands for.
use xray_core_python.Prelude.{ℕ, ◌*◌, ◌/◌, ◌≤◌, ltb, if◌then◌else◌, u32, arith}

-- The fields of the protocol's `Config` message, all uint32.
pub record Config : Type 0 where
  pub mtu : ℕ
  pub tti : ℕ
  pub uplink_capacity : ℕ
  pub downlink_capacity : ℕ
  pub cwnd_multiplier : ℕ
  pub max_sending_window : ℕ

-- `capacity * 1024 * 1024 / mtu / (1000 / tti)` in uint32. Go panics where `mtu` is 0 or `tti` is
-- 0 or above 1000; the division is 0 here.
in_flight_size : ℕ → Config → ℕ
in_flight_size capacity c =
    let size = u32 (capacity * 1024 * 1024) / c.mtu / (1000 / c.tti) in
    if ltb size 8 then 8 else size

unfoldable pub get_sending_in_flight_size : Config → ℕ
unfolding in_flight_size
get_sending_in_flight_size c = in_flight_size c.uplink_capacity c

unfoldable pub get_sending_buffer_size : Config → ℕ
get_sending_buffer_size c = c.max_sending_window / c.mtu

unfoldable pub get_receiving_in_flight_size : Config → ℕ
unfolding in_flight_size
get_receiving_in_flight_size c = in_flight_size c.downlink_capacity c

-- Both windows hold at least 8 packets.
pub in_flight_sizes_lower :
    (c : Config) → (8 ≤ get_sending_in_flight_size c) × (8 ≤ get_receiving_in_flight_size c)
unfolding get_sending_in_flight_size get_receiving_in_flight_size
in_flight_sizes_lower c = ground arith
