-- ===== src/Kcp/Connection/Transitions.antt =====
-- The states that a connection moves through.
use xray_core_python.Prelude.{
  ℕ, ◌≡◌, refl, sym, subst, ◌++◌, Bool, true, false, Option, none, some, List, [], ◌∷◌, ◌==◌, ◌||◌,
  if◌then◌else◌, arith, Bool-cases, Option-cases, inl, inr,
}
use Prim.Native.Nat.{bit_and}
use xray_core_python.Kcp.Segment.{
  conversation, command_terminate, segment_option_close, Segment, data_seg, ack_seg, cmd_seg,
  DataSegment, AckSegment, CmdOnlySegment,
}
use xray_core_python.Kcp.Connection.{
  State, active, ready_to_close, peer_closed, terminating, peer_terminating, terminated, is,
  Connection, signal_both,
}
use xray_core_python.Kcp.Connection.Events.{
  set_state, close, close_target, peer_closed_target, terminate_target, moved, handle_option,
  input_data, input_ack, input_cmd, input_segment, input_loop, input, now,
}

-- What a connection is moved by: `Close`, a segment's close option, a terminate command, and in a
-- flush the idle time, a sending side with nothing left or too long about it, and the other timers.
pub data Cause : Type 0 where
  by_close by_option by_command by_idle by_drain by_timer : Cause

-- The moves that the protocol makes.
pub data Edge : Cause → State → State → Type 0 where
  local_close : Edge by_close active ready_to_close
  answer_close : Edge by_close peer_closed terminating
  answer_terminate : Edge by_close peer_terminating terminated
  remote_close : Edge by_option active peer_closed
  close_both : Edge by_option ready_to_close terminating
  remote_terminate : Edge by_command active peer_terminating
  ready_terminate : Edge by_command ready_to_close terminating
  closed_terminate : Edge by_command peer_closed peer_terminating
  terminate_both : Edge by_command terminating terminated
  idle_close : Edge by_idle active ready_to_close
  drained : Edge by_drain ready_to_close terminating
  give_up : Edge by_timer terminating terminated
  give_up_waiting : Edge by_timer peer_terminating terminating

-- A way through the diagram with one move at most for each cause, in the order of the causes.
pub data Walk : List Cause → State → State → Type 0 where
  arrived : {s : State} → Walk [] s s
  waits : {c : Cause} {cs : List Cause} {s t : State} → Walk cs s t → Walk (c ∷ cs) s t
  moves :
      {c : Cause} {cs : List Cause} {s t u : State} → Edge c s t → Walk cs t u → Walk (c ∷ cs) s u

pub Walk-append :
    {cs ds : List Cause} {s t u : State} → Walk cs s t → Walk ds t u → Walk (cs ++ ds) s u
Walk-append arrived q = q
Walk-append (waits p) q = waits (Walk-append p q)
Walk-append (moves e p) q = moves e (Walk-append p q)

pub idle : (cs : List Cause) {s : State} → Walk cs s s
idle [] = arrived
idle (c ∷ cs) = waits (idle cs)

pub one : {c : Cause} {s t : State} → Edge c s t → Walk (c ∷ []) s t
one e = moves e arrived

pub stay : {c : Cause} {s : State} → Walk (c ∷ []) s s
stay = waits arrived

abbrev after : Option State → State → State
after none s = s
after (some t) s = t

close_target-Walk : (s : State) → Walk (by_close ∷ []) s (after (close_target s) s)
close_target-Walk active = one local_close
close_target-Walk ready_to_close = stay
close_target-Walk peer_closed = one answer_close
close_target-Walk terminating = stay
close_target-Walk peer_terminating = one answer_terminate
close_target-Walk terminated = stay

peer_closed_target-Walk : (s : State) → Walk (by_option ∷ []) s (after (peer_closed_target s) s)
peer_closed_target-Walk active = one remote_close
peer_closed_target-Walk ready_to_close = one close_both
peer_closed_target-Walk peer_closed = stay
peer_closed_target-Walk terminating = stay
peer_closed_target-Walk peer_terminating = stay
peer_closed_target-Walk terminated = stay

terminate_target-Walk : (s : State) → Walk (by_command ∷ []) s (after (terminate_target s) s)
terminate_target-Walk active = one remote_terminate
terminate_target-Walk ready_to_close = one ready_terminate
terminate_target-Walk peer_closed = one closed_terminate
terminate_target-Walk terminating = one terminate_both
terminate_target-Walk peer_terminating = stay
terminate_target-Walk terminated = stay

-- What the segments of a packet may move a connection by.
abbrev option_causes : ℕ → List Cause
option_causes opt = if bit_and opt 1 == 1 then by_option ∷ [] else []

abbrev command_causes : Bool → List Cause
command_causes is_terminate = if is_terminate then by_command ∷ [] else []

abbrev segment_causes : Segment → List Cause
segment_causes (data_seg seg) = option_causes seg.option
segment_causes (ack_seg seg) = option_causes seg.option
segment_causes (cmd_seg seg) =
    option_causes seg.option ++ command_causes (seg.cmd == command_terminate)

abbrev pub input_causes : List Segment → List Cause
input_causes [] = []
input_causes (seg ∷ segs) = segment_causes seg ++ input_causes segs

pub same_state : (c c' : Connection) → c'.state ≡ c.state → Walk [] c.state c'.state
same_state c c' e = rw e arrived

signal_if-state : (b : Bool) (c : Connection) → (if b then signal_both c else c).state ≡ c.state
signal_if-state true c = refl
signal_if-state false c = refl

pub is→eq : (s t : State) → is s t ≡ true → s ≡ t
is→eq s t h = ground arith

module _ (clock : ℕ → ℕ) where
  pub set_state-state : (s : State) (c : Connection) → (set_state clock s c).state ≡ s
  unfolding set_state
  set_state-state active c = refl
  set_state-state ready_to_close c = refl
  set_state-state peer_closed c = refl
  set_state-state terminating c = refl
  set_state-state peer_terminating c = refl
  set_state-state terminated c = refl

  moved-state : (o : Option State) (c : Connection) → (moved clock o c).state ≡ after o c.state
  moved-state none c = refl
  moved-state (some s) c = set_state-state s c

  pub close-moved :
      (c : Connection) → (close clock c).0.state ≡ after (close_target c.state) c.state
  unfolding close
  close-moved c = elim (Option-cases (close_target c.state)) [
    | inl e ↦ rw (e, close)
    | inr (s, e) ↦ rw (e, close) (set_state-state s _)
  ]

  -- `Close` makes at most one move of the protocol.
  pub close-Walk : (c : Connection) → Walk (by_close ∷ []) c.state (close clock c).0.state
  close-Walk c = rw (close-moved c) (close_target-Walk c.state)

  handle_option-Walk :
      (opt : ℕ) (c : Connection)
      → Walk (option_causes opt) c.state (handle_option clock opt c).state
  unfolding handle_option
  handle_option-Walk opt c = elim (Bool-cases (bit_and opt 1 == 1)) [
    | inl closing ↦
        rw (closing, moved-state (peer_closed_target c.state) c) (peer_closed_target-Walk c.state)
    | inr open_still ↦ rw open_still arrived
  ]

  input_data-Walk :
      (seg : DataSegment) (c : Connection)
      → Walk (option_causes seg.option) c.state (input_data clock seg c).state
  unfolding input_data
  input_data-Walk seg c = handle_option-Walk seg.option c

  input_ack-Walk :
      (current : ℕ) (seg : AckSegment) (c : Connection)
      → Walk (option_causes seg.option) c.state (input_ack clock current seg c).state
  unfolding input_ack
  input_ack-Walk current seg c = handle_option-Walk seg.option c

  moved_if-Walk :
      (b : Bool) (c : Connection)
      → Walk
          (command_causes b)
          c.state
          (if b then moved clock (terminate_target c.state) c else c).state
  moved_if-Walk true c =
      rw (moved-state (terminate_target c.state) c) (terminate_target-Walk c.state)
  moved_if-Walk false c = arrived

  input_cmd-Walk :
      (current : ℕ) (seg : CmdOnlySegment) (c : Connection)
      → Walk
          (option_causes seg.option ++ command_causes (seg.cmd == command_terminate))
          c.state
          (input_cmd clock current seg c).state
  unfolding input_cmd
  input_cmd-Walk current seg c =
      let c1 = handle_option clock seg.option c in
      let is_terminate = seg.cmd == command_terminate in
      let c2 = if is_terminate then moved clock (terminate_target c1.state) c1 else c1 in
      subst (λ s. Walk (option_causes seg.option ++ command_causes is_terminate) c.state s)
        (sym (signal_if-state (seg.option == segment_option_close || is_terminate) c2))
        (Walk-append (handle_option-Walk seg.option c) (moved_if-Walk is_terminate c1))

  input_segment-Walk :
      (current : ℕ) (seg : Segment) (c : Connection)
      → Walk (segment_causes seg) c.state (input_segment clock current seg c).state
  unfolding input_segment
  input_segment-Walk current (data_seg seg) c = input_data-Walk seg c
  input_segment-Walk current (ack_seg seg) c = input_ack-Walk current seg c
  input_segment-Walk current (cmd_seg seg) c = input_cmd-Walk current seg c

  input_loop-Walk :
      (current : ℕ) (segs : List Segment) (c : Connection)
      → Walk (input_causes segs) c.state (input_loop clock current segs c).state
  unfolding input_loop
  input_loop-Walk current [] c = arrived
  input_loop-Walk current (seg ∷ segs) c = elim (Bool-cases (conversation seg == c.conv)) [
    | inl ours ↦ rw ours (
        Walk-append (input_segment-Walk current seg c)
          (input_loop-Walk current segs (input_segment clock current seg c)))
    | inr other ↦ rw other (idle (input_causes (seg ∷ segs)))
  ]

  -- Whatever a packet brings, it takes the connection along moves of the protocol alone.
  pub input-Walk :
      (segs : List Segment) (c : Connection)
      → Walk (input_causes segs) c.state (input clock segs c).state
  unfolding input
  input-Walk segs c = input_loop-Walk (now clock c) segs _
