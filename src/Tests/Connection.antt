-- ===== src/Tests/Connection.antt =====
-- A connection at concrete inputs.
use xray_core_python.Prelude.{ℕ, ◌*◌, ◌≡◌, refl, false, List, [], ◌∷◌, arith}
use xray_core_python.Kcp.Connection.{active, ready_to_close, terminated, Connection}
use xray_core_python.Kcp.Connection.Events.{flush}
use xray_core_python.Kcp.Connection.Handlers.{Event, on_input, on_close, on_flush, on_terminate}
use xray_core_python.Kcp.Connection.Writing.{Sent, write_all, write_all-Sent}
use xray_core_python.Kcp.Connection.Closing.{flush_ready_to_close}
use xray_core_python.Tests.Data.{config, packet_segments, receiving, sending, info}

-- A clock that moves by 10 ms at every reading.
abbrev clock : ℕ → ℕ
clock n = n * 10

abbrev connection : Connection
connection = record {
  conv = 7;
  config = config;
  state = ready_to_close;
  state_begin_time = 0;
  last_incoming_time = 0;
  last_ping_time = 0;
  mss = 1332;
  round_trip = info;
  receiving = receiving;
  sending = record sending { window = record { cache = []; total_in_flight_size = 0 } };
  output = [];
  data_input = false;
  data_output = false;
  data_awake = false;
  ping_awake = false;
  ping_interval = 5000;
  terminate_started = false;
  closer_closed = false;
  reads = 3;
}

abbrev events : List Event
events = on_input packet_segments ∷ on_flush ∷ on_close ∷ on_flush ∷ on_terminate ∷ []

flush_ready_to_close_example : (flush clock connection).state ≡ terminated
flush_ready_to_close_example =
    flush_ready_to_close clock connection refl refl (omega arith) (omega arith) (omega arith)

-- Packets of two bytes; the window takes them all.
abbrev writer : Connection
writer = record connection { state = active; mss = 2 }

write_all-Sent_example :
    let (o, rest, b, c') = write_all (1 ∷ 2 ∷ 3 ∷ []) writer in
    Sent writer (1 ∷ 2 ∷ 3 ∷ []) o rest b c'
write_all-Sent_example = write_all-Sent (1 ∷ 2 ∷ 3 ∷ []) writer (omega arith)
