-- ===== src/Kcp/Connection/Events.antt =====
-- The handlers of a connection that read the clock: `SetState`, `Close`, `Input`, `flush`.
use Prim.Native.Nat.{bit_and}
use xray_core_python.Prelude.{
  ℕ, ◌+◌, Bool, true, false, ◌&&◌, ◌||◌, Option, none, some, List, [], ◌∷◌, ltb, leb, ◌==◌,
  if◌then◌else◌, u32, sub32,
}
use xray_core_python.Kcp.Segment.{
  DataSegment, AckSegment, CmdOnlySegment, Segment, data_seg, ack_seg, cmd_seg, command_terminate,
  command_ping, segment_option_close, conversation,
}
use xray_core_python.Kcp.RoundTripInfo.{update_peer_rto}
use xray_core_python.Kcp.Receiving
use xray_core_python.Kcp.Receiving.{ReceivingWorker}
use xray_core_python.Kcp.Sending.Worker
use xray_core_python.Kcp.Sending.Worker.{SendingWorker, nothing_pending}
use xray_core_python.Kcp.Connection.{
  State, active, ready_to_close, peer_closed, terminating, peer_terminating, terminated, is,
  Connection, close_write, signal_both, ping, flush_workers,
}

-- The state that `Close` moves to; `none` is `ErrClosedConnection`.
abbrev pub close_target : State → Option State
close_target active = some ready_to_close
close_target peer_closed = some terminating
close_target peer_terminating = some terminated
close_target _ = none

-- The state that a peer's closing option moves to.
abbrev pub peer_closed_target : State → Option State
peer_closed_target ready_to_close = some terminating
peer_closed_target active = some peer_closed
peer_closed_target _ = none

-- The switch on a terminating command.
abbrev pub terminate_target : State → Option State
terminate_target active = some peer_terminating
terminate_target peer_closed = some peer_terminating
terminate_target ready_to_close = some terminating
terminate_target terminating = some terminated
terminate_target _ = none

module _ (clock : ℕ → ℕ) where
  -- `Elapsed`, and the connection after the call.
  abbrev pub now : Connection → ℕ
  now c = u32 (clock c.reads)

  abbrev pub ticked : Connection → Connection
  ticked c = record c { reads = c.reads + 1 }

  -- What `SetState` does beside the two stores.
  unfoldable pub on_entering : State → Connection → Connection
  on_entering active c = c
  on_entering ready_to_close c = c
  on_entering peer_closed c = close_write c
  on_entering terminating c = record (close_write c) { ping_interval = 1000 }
  on_entering peer_terminating c = record (close_write c) { ping_interval = 1000 }
  on_entering terminated c = record (close_write c) {
    ping_interval = 1000;
    data_awake = true;
    ping_awake = true;
    terminate_started = true;
  }

  unfoldable pub set_state : State → Connection → Connection
  unfolding on_entering
  set_state state c =
      on_entering state (record (ticked c) { state = state; state_begin_time = now c })

  -- The connection after `Close`, and whether it returns no error.
  unfoldable pub close : Connection → Connection × Bool
  close c = elim (close_target c.state) [
    | none ↦ (signal_both c, false)
    | some s ↦ (set_state s (signal_both c), true)
  ]

  abbrev pub moved : Option State → Connection → Connection
  moved none c = c
  moved (some s) c = set_state s c

  unfoldable pub on_peer_closed : Connection → Connection
  on_peer_closed c = moved (peer_closed_target c.state) c

  unfoldable pub handle_option : ℕ → Connection → Connection
  unfolding on_peer_closed
  handle_option opt c =
      if bit_and opt segment_option_close == segment_option_close then on_peer_closed c else c

  unfoldable pub input_data : DataSegment → Connection → Connection
  input_data seg c =
      let c1 = handle_option seg.option c in
      let receiving = Receiving.process_segment seg c1.receiving in
      record c1 {
        receiving = receiving;
        data_input = if Receiving.is_data_available receiving then true else c1.data_input;
        data_awake = true;
      }

  unfoldable pub input_ack : ℕ → AckSegment → Connection → Connection
  input_ack current seg c =
      let c1 = handle_option seg.option c in
      let (sending, round_trip) =
        Worker.process_segment current seg c1.round_trip.rto c1.sending c1.round_trip in
      record c1 {
        sending = sending;
        round_trip = round_trip;
        data_output = true;
        data_awake = true;
      }

  unfoldable pub input_cmd : ℕ → CmdOnlySegment → Connection → Connection
  input_cmd current seg c =
      let c1 = handle_option seg.option c in
      let is_terminate = seg.cmd == command_terminate in
      let c2 = if is_terminate then moved (terminate_target c1.state) c1 else c1 in
      let c3 = if seg.option == segment_option_close || is_terminate then signal_both c2 else c2 in
      record c3 {
        sending = Worker.process_receiving_next seg.receiving_next c3.sending;
        receiving = Receiving.process_sending_next seg.sending_next c3.receiving;
        round_trip = update_peer_rto seg.peer_rto current c3.round_trip;
      }

  unfoldable pub input_segment : ℕ → Segment → Connection → Connection
  input_segment current (data_seg seg) c = input_data seg c
  input_segment current (ack_seg seg) c = input_ack current seg c
  input_segment current (cmd_seg seg) c = input_cmd current seg c

  -- The loop of `Input`, up to the `break` at a segment of another conversation.
  unfoldable pub input_loop : ℕ → List Segment → Connection → Connection
  input_loop current [] c = c
  input_loop current (seg ∷ segs) c =
      let rest = input_loop current segs (input_segment current seg c) in
      if conversation seg == c.conv then rest else c

  unfoldable pub input : List Segment → Connection → Connection
  unfolding input_loop input_segment
  input segments c = input_loop (now c) segments (record (ticked c) { last_incoming_time = now c })

  -- `flush` up to the switch on the terminating state: an idle connection is closed, and one that
  -- is closed with nothing left to send goes on to terminate.
  unfoldable pub flush_closing : ℕ → Connection → Connection
  flush_closing current c =
      let c1 =
        if is c.state active && leb 30000 (sub32 current c.last_incoming_time)
        then (close c).0
        else c in
      if is c1.state ready_to_close && nothing_pending c1.sending
      then set_state terminating c1
      else c1

  -- The branch of a terminating connection.
  unfoldable pub flush_terminating : ℕ → Connection → Connection
  flush_terminating current c =
      let c1 = ping current command_terminate c in
      if ltb 8000 (sub32 current c1.state_begin_time) then set_state terminated c1 else c1

  -- A state that is held for too long.
  unfoldable pub expire : State → ℕ → ℕ → Connection → Connection
  expire held limit current c =
      if is c.state held && ltb limit (sub32 current c.state_begin_time)
      then set_state terminating c
      else c

  unfoldable pub flush_open : ℕ → Connection → Connection
  unfolding expire
  flush_open current c =
      let c1 = expire peer_terminating 4000 current c in
      let c2 = expire ready_to_close 15000 current c1 in
      let c3 = flush_workers current c2 in
      if leb 3000 (sub32 current c3.last_ping_time) then ping current command_ping c3 else c3

  unfoldable pub flush : Connection → Connection
  unfolding flush_closing flush_terminating flush_open
  flush c =
      let current = now c in
      let c0 = ticked c in
      if is c0.state terminated
      then c0
      else let c1 = flush_closing current c0 in
        if is c1.state terminating then flush_terminating current c1 else flush_open current c1
