-- ===== src/Tests/Data.antt =====
-- A configuration, segments and workers in the middle of a transfer.
use xray_core_python.Prelude.{ℕ, zero, suc, true, false, none, some, List, [], ◌∷◌}
use xray_core_python.Kcp.Config.{Config}
use xray_core_python.Kcp.Segment.{
  DataSegment, AckSegment, CmdOnlySegment, Segment, data_seg, ack_seg, cmd_seg,
}
use xray_core_python.Kcp.AckList.{AckList}
use xray_core_python.Kcp.Receiving.{ReceivingWorker}
use xray_core_python.Kcp.Sending.Worker.{SendingWorker}
use xray_core_python.Kcp.RoundTripInfo.{RoundTripInfo}

abbrev pub config : Config
config = record {
  mtu = 1350;
  tti = 50;
  uplink_capacity = 5;
  downlink_capacity = 20;
  cwnd_multiplier = 1;
  max_sending_window = 2097152;
}

abbrev pub packet : ℕ → List ℕ → DataSegment
packet n bytes = record {
  conv = 7;
  option = 0;
  timestamp = 1000;
  number = n;
  sending_next = 0;
  payload = some bytes;
  timeout = 0;
  transmit = 0;
}

-- The sender's packets.
abbrev pub stream : ℕ → List ℕ
stream zero = 10 ∷ 11 ∷ []
stream (suc zero) = 12 ∷ []
stream (suc (suc n)) = 13 ∷ 14 ∷ 15 ∷ []

abbrev pub acklist : AckList
acklist = record {
  timestamps = 1000 ∷ 1010 ∷ 1020 ∷ [];
  numbers = 1 ∷ 3 ∷ 4 ∷ [];
  next_flush = 0 ∷ 2500 ∷ 0 ∷ [];
  flush_candidates = [];
  dirty = true;
  mss = 1350;
}

-- Packet 0 is read, 2 is waited for no longer than 1 is missing.
abbrev pub receiving : ReceivingWorker
receiving = record {
  left_over = none;
  window = record { cache = (2, packet 2 (stream 2)) ∷ (1, packet 1 (stream 1)) ∷ [] };
  acklist = acklist;
  next_number = 1;
  window_size = 776;
}

abbrev pub sending : SendingWorker
sending = record {
  window = record {
    cache = packet 4 (20 ∷ []) ∷ packet 5 (21 ∷ []) ∷ packet 7 (22 ∷ []) ∷ [];
    total_in_flight_size = 1;
  };
  first_unacknowledged = 4;
  next_number = 8;
  remote_next_number = 36;
  control_window = 194;
  fast_resend = 2;
  window_size = 1553;
  first_unacknowledged_updated = false;
  closed = false;
}

abbrev pub info : RoundTripInfo
info = record { variation = 20; srtt = 120; rto = 250; min_rtt = 50; updated_timestamp = 900 }

abbrev pub ack : AckSegment
ack = record {
  conv = 7;
  option = 0;
  receiving_window = 40;
  receiving_next = 5;
  timestamp = 1000;
  number_list = 7 ∷ [];
  limit = 128;
}

abbrev pub closing_ping : CmdOnlySegment
closing_ping = record {
  conv = 7;
  cmd = 3;
  option = 1;
  sending_next = 0;
  receiving_next = 0;
  peer_rto = 250;
}

abbrev pub packet_segments : List Segment
packet_segments = data_seg (packet 2 (1 ∷ 2 ∷ 3 ∷ [])) ∷ ack_seg ack ∷ cmd_seg closing_ping ∷ []
