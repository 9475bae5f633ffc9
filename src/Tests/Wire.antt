-- ===== src/Tests/Wire.antt =====
-- Segments on the wire at concrete inputs.
use xray_core_python.Prelude.{ℕ, ◌≡◌, refl, some, List, map, arith}
use xray_core_python.Kcp.Segment.{read_packet}
use xray_core_python.Kcp.Segment.RoundTrip.{
  AreWire, received, serialize_all, read_packet-serialize_all,
}
use xray_core_python.Tests.Data.{packet_segments}

packet_segments-AreWire : AreWire packet_segments
packet_segments-AreWire = (
  (omega arith, omega arith, omega arith, omega arith, omega arith, omega arith, omega arith, refl),
  (
    (
      omega arith,
      omega arith,
      omega arith,
      omega arith,
      omega arith,
      omega arith,
      (omega arith, tt),
    ),
    (
      (omega arith, omega arith, omega arith, omega arith, omega arith, omega arith, omega arith),
      tt,
    ),
  ),
)

read_packet-serialize_all_example :
    (bs : List ℕ) × (serialize_all packet_segments ≡ some bs)
    × (read_packet bs ≡ map received packet_segments)
read_packet-serialize_all_example =
    read_packet-serialize_all packet_segments packet_segments-AreWire
