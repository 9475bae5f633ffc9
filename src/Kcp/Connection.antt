-- ===== src/Kcp/Connection.antt =====
-- xray-go/transport/internet/kcp/connection.go: a KCP connection, its state and its handlers. Each
-- handler runs alone, as one step. The clock is a parameter: `clock n` is what the n-th call of
-- `Elapsed` finds, in milliseconds since the connection began. Errors of the output are ignored
-- as the code ignores them, and the segments that go out are listed in their order.
pub mod Events
pub mod Transitions
pub mod Handlers
pub mod Closing
pub mod Writing
use xray_core_python.Prelude.{
  ℕ, zero, suc, ◌+◌, ◌-◌, ◌%◌, ◌^◌, min, Bool, true, false, ◌&&◌, ◌||◌, not, Option, none, some,
  List, [], ◌∷◌, ◌++◌, map, ltb, leb, ◌==◌, if◌then◌else◌, length, take, drop, u32, sub32,
}
use xray_core_python.Kcp.Config.{Config}
use xray_core_python.Kcp.Segment.{
  DataSegment, AckSegment, CmdOnlySegment, Segment, data_seg, ack_seg, cmd_seg, command_terminate,
  command_ping, segment_option_close, data_segment_overhead, buffer_size, conversation,
}
use xray_core_python.Kcp.RoundTripInfo.{RoundTripInfo, update_peer_rto}
use xray_core_python.Kcp.Receiving
use xray_core_python.Kcp.Receiving.{ReceivingWorker}
use xray_core_python.Kcp.Sending.Worker
use xray_core_python.Kcp.Sending.Worker.{SendingWorker, nothing_pending}

pub data State : Type 0 where
  active ready_to_close peer_closed terminating peer_terminating terminated : State

abbrev pub code : State → ℕ
code active = 0
code ready_to_close = 1
code peer_closed = 2
code terminating = 3
code peer_terminating = 4
code terminated = 5

abbrev pub is : State → State → Bool
is s t = code s == code t

pub record Connection : Type 0 where
  pub conv : ℕ
  pub config : Config
  pub state : State
  pub state_begin_time : ℕ
  pub last_incoming_time : ℕ
  pub last_ping_time : ℕ
  pub mss : ℕ
  pub round_trip : RoundTripInfo
  pub receiving : ReceivingWorker
  pub sending : SendingWorker
  -- What `output.Write` was given.
  pub output : List Segment
  -- A signal waits in the notifier (a channel of capacity 1).
  pub data_input : Bool
  pub data_output : Bool
  -- `WakeUp` was called and the updater may run.
  pub data_awake : Bool
  pub ping_awake : Bool
  -- In milliseconds.
  pub ping_interval : ℕ
  -- `go c.Terminate()` was called; `Terminate` has closed the packet connection.
  pub terminate_started : Bool
  pub closer_closed : Bool
  -- How often `Elapsed` was called.
  pub reads : ℕ

unfoldable pub new_connection : ℕ → Config → Connection
new_connection conv config = record {
  conv = conv;
  config = config;
  state = active;
  state_begin_time = 0;
  last_incoming_time = 0;
  last_ping_time = 0;
  mss = sub32 config.mtu data_segment_overhead;
  round_trip = record {
    variation = 0;
    srtt = 0;
    rto = 100;
    min_rtt = config.tti;
    updated_timestamp = 0;
  };
  receiving = Receiving.new_receiving_worker config (sub32 config.mtu data_segment_overhead);
  sending = Worker.new_sending_worker config;
  output = [];
  data_input = false;
  data_output = false;
  data_awake = false;
  ping_awake = true;
  ping_interval = 5000;
  terminate_started = false;
  closer_closed = false;
  reads = 0;
}

abbrev pub close_write : Connection → Connection
close_write c = record c { sending = Worker.close_write c.sending }

abbrev pub signal_both : Connection → Connection
signal_both c = record c { data_input = true; data_output = true }

-- `Ping`.
unfoldable pub ping : ℕ → ℕ → Connection → Connection
ping current cmd c = record c {
  output =
      c.output
      ++ (cmd_seg (record {
        conv = c.conv;
        cmd = cmd;
        option = if is c.state ready_to_close then segment_option_close else 0;
        sending_next = c.sending.first_unacknowledged;
        receiving_next = c.receiving.next_number;
        peer_rto = c.round_trip.rto;
      })
          ∷ []);
  last_ping_time = current;
}

-- The two flushes, and the ping that the second may ask for.
unfoldable pub flush_workers : ℕ → Connection → Connection
flush_workers current c =
    let closing = is c.state ready_to_close in
    let (receiving, acks) = Receiving.flush c.conv closing current c.round_trip.rto c.receiving in
    let (sending, packets, updated) =
      Worker.flush c.conv closing c.config c.round_trip.rto current c.sending in
    let c' = record c {
      receiving = receiving;
      sending = sending;
      output = (c.output ++ map ack_seg acks) ++ map data_seg packets;
    } in
    if updated then ping current command_ping c' else c'

unfoldable pub terminate : Connection → Connection
terminate c = record c {
  data_input = true;
  data_output = true;
  closer_closed = true;
  sending = Worker.release c.sending;
  receiving = Receiving.release c.receiving;
}
