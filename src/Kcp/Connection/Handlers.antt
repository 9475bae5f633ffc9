-- ===== src/Kcp/Connection/Handlers.antt =====
-- The moves of a connection when it is flushed, and over any run of its handlers.
use xray_core_python.Prelude.{
  ℕ, ◌≡◌, ◌⊎◌, refl, Bool, true, false, List, [], ◌∷◌, ◌++◌, ◌&&◌, if◌then◌else◌, leb, ltb, sub32,
  arith, Bool-cases, inl, inr,
}
use xray_core_python.Kcp.Segment.{command_terminate, command_ping, Segment}
use xray_core_python.Kcp.Connection.{
  State, active, ready_to_close, terminating, peer_terminating, terminated, is, Connection, ping,
  flush_workers,
}
use xray_core_python.Kcp.Sending.Worker.{nothing_pending}
use xray_core_python.Kcp.Connection.Events.{
  set_state, close, input, flush_closing, flush_terminating, expire, flush_open, flush, now, ticked,
}
use xray_core_python.Kcp.Connection.{terminate}
use xray_core_python.Kcp.Connection.Transitions.{
  Cause, by_close, by_idle, by_drain, by_timer, Edge, idle_close, drained, give_up, give_up_waiting,
  local_close, answer_close, answer_terminate, remote_close, close_both, remote_terminate,
  ready_terminate, closed_terminate, terminate_both, Walk, arrived, waits, moves, Walk-append, idle,
  one, stay, input_causes, same_state, set_state-state, is→eq, close-moved, close-Walk, input-Walk,
}

ping-state : (current cmd : ℕ) (c : Connection) → (ping current cmd c).state ≡ c.state
unfolding ping
ping-state current cmd c = refl

ping_if-state :
    (b : Bool) (current cmd : ℕ) (c : Connection)
    → (if b then ping current cmd c else c).state ≡ c.state
ping_if-state true current cmd c = ping-state current cmd c
ping_if-state false current cmd c = refl

flush_workers-state : (current : ℕ) (c : Connection) → (flush_workers current c).state ≡ c.state
unfolding flush_workers
flush_workers-state current c = ping_if-state _ current command_ping _

-- What a flush may move a connection by: being idle, having nothing left to send, and a timer.
abbrev flush_causes : List Cause
flush_causes = by_idle ∷ by_drain ∷ by_timer ∷ by_drain ∷ []

module _ (clock : ℕ → ℕ) where
  close_if-Walk :
      (b : Bool) (c : Connection)
      → (b ≡ true → c.state ≡ active)
      → Walk (by_idle ∷ []) c.state (if b then (close clock c).0 else c).state
  close_if-Walk true c h = rw (close-moved clock c, h refl) (one idle_close)
  close_if-Walk false c h = stay

  -- A move from a given state, under a test that the connection is in it.
  set_if-Walk :
      (cause : Cause) (from to : State) (b : Bool) (c : Connection)
      → Edge cause from to
      → Walk (cause ∷ []) c.state (if is c.state from && b then set_state clock to c else c).state
  set_if-Walk cause from to b c e = elim (Bool-cases (is c.state from && b)) [
    | inl go ↦ rw (go, set_state-state clock to c, is→eq c.state from (ground arith)) (one e)
    | inr wait ↦ rw wait stay
  ]

  flush_closing-Walk :
      (current : ℕ) (c : Connection)
      → Walk (by_idle ∷ by_drain ∷ []) c.state (flush_closing clock current c).state
  unfolding flush_closing
  flush_closing-Walk current c =
      let since = leb 30000 (sub32 current c.last_incoming_time) in
      let c1 = if is c.state active && since then (close clock c).0 else c in
      Walk-append
        (close_if-Walk (is c.state active && since) c (λ h. is→eq c.state active (ground arith)))
        (set_if-Walk by_drain ready_to_close terminating (nothing_pending c1.sending) c1 drained)

  flush_terminating-Walk :
      (current : ℕ) (c : Connection)
      → c.state ≡ terminating
      → Walk (by_timer ∷ by_drain ∷ []) c.state (flush_terminating clock current c).state
  unfolding flush_terminating
  flush_terminating-Walk current c e =
      let c1 = ping current command_terminate c in
      elim (Bool-cases (ltb 8000 (sub32 current c1.state_begin_time))) [
        | inl over ↦ rw (over, set_state-state clock terminated c1, e) (moves give_up stay)
        | inr wait ↦
            rw wait
              (Walk-append (same_state c c1 (ping-state current command_terminate c)) (waits stay))
      ]

  flush_open-Walk :
      (current : ℕ) (c : Connection)
      → Walk (by_timer ∷ by_drain ∷ []) c.state (flush_open clock current c).state
  unfolding flush_open
  flush_open-Walk current c =
      let c1 = expire clock peer_terminating 4000 current c in
      let c2 = expire clock ready_to_close 15000 current c1 in
      let c3 = flush_workers current c2 in
      let due = leb 3000 (sub32 current c3.last_ping_time) in
      let c4 = if due then ping current command_ping c3 else c3 in
      Walk-append (set_if-Walk by_timer peer_terminating terminating _ c give_up_waiting) (
        Walk-append (set_if-Walk by_drain ready_to_close terminating _ c1 drained) (
          Walk-append (same_state c2 c3 (flush_workers-state current c2))
            (same_state c3 c4 (ping_if-state due current command_ping c3))))

  -- A flush takes the connection along moves of the protocol alone.
  pub flush-Walk : (c : Connection) → Walk flush_causes c.state (flush clock c).state
  unfolding flush
  flush-Walk c =
      let current = now clock c in
      let c0 = ticked clock c in
      let c1 = flush_closing clock current c0 in
      elim (Bool-cases (is c.state terminated)) [
        | inl over ↦ rw over (idle flush_causes)
        | inr live ↦ elim (Bool-cases (is c1.state terminating)) [
          | inl ending ↦
              rw (live, ending)
                (Walk-append (flush_closing-Walk current c0)
                  (flush_terminating-Walk current c1 (is→eq c1.state terminating ending)))
          | inr going ↦
              rw (live, going)
                (Walk-append (flush_closing-Walk current c0) (flush_open-Walk current c1))
        ]
      ]

Edge-ends :
    {c : Cause} {s t : State} → Edge c s t → (is t active ≡ false) × (is s terminated ≡ false)
Edge-ends local_close = (refl, refl)
Edge-ends answer_close = (refl, refl)
Edge-ends answer_terminate = (refl, refl)
Edge-ends remote_close = (refl, refl)
Edge-ends close_both = (refl, refl)
Edge-ends remote_terminate = (refl, refl)
Edge-ends ready_terminate = (refl, refl)
Edge-ends closed_terminate = (refl, refl)
Edge-ends terminate_both = (refl, refl)
Edge-ends idle_close = (refl, refl)
Edge-ends drained = (refl, refl)
Edge-ends give_up = (refl, refl)
Edge-ends give_up_waiting = (refl, refl)

terminated_or : (s : State) → (is s terminated ≡ false) ⊎ (s ≡ terminated)
terminated_or s = elim (Bool-cases (is s terminated)) [
  | inl e ↦ inr (is→eq s terminated e)
  | inr e ↦ inl e
]

-- No move leaves the last state, and none enters the first.
Walk-final :
    {cs : List Cause} {s t : State}
    → Walk cs s t
    → is s active ≡ false
    → (is t active ≡ false) × ((is s terminated ≡ false) ⊎ (t ≡ terminated))
Walk-final {cs} {s} arrived h = (h, terminated_or s)
Walk-final (waits p) h = Walk-final p h
Walk-final (moves e p) h = let ends = Edge-ends e in ((Walk-final p ends.0).0, inl ends.1)

-- What can happen to a connection.
pub data Event : Type 0 where
  on_input : List Segment → Event
  on_close : Event
  on_flush : Event
  on_terminate : Event

-- What an event may move a connection by.
abbrev event_causes : Event → List Cause
event_causes (on_input segs) = input_causes segs
event_causes on_close = by_close ∷ []
event_causes on_flush = flush_causes
event_causes on_terminate = []

abbrev pub run_causes : List Event → List Cause
run_causes [] = []
run_causes (e ∷ es) = event_causes e ++ run_causes es

module _ (clock : ℕ → ℕ) where
  pub step : Event → Connection → Connection
  step (on_input segs) c = input clock segs c
  step on_close c = (close clock c).0
  step on_flush c = flush clock c
  step on_terminate c = terminate c

  pub run : List Event → Connection → Connection
  run [] c = c
  run (e ∷ es) c = run es (step e c)

  step-Walk : (e : Event) (c : Connection) → Walk (event_causes e) c.state (step e c).state
  unfolding step
  step-Walk (on_input segs) c = input-Walk clock segs c
  step-Walk on_close c = close-Walk clock c
  step-Walk on_flush c = flush-Walk clock c
  step-Walk on_terminate c = unfold terminate in arrived

  pub run-Walk : (es : List Event) (c : Connection) → Walk (run_causes es) c.state (run es c).state
  unfolding run
  run-Walk [] c = arrived
  run-Walk (e ∷ es) c = Walk-append (step-Walk e c) (run-Walk es (step e c))

  -- A connection that is not active is never active again, and one that is terminated stays so,
  -- over any run of its handlers.
  pub run_never_reopens :
      (es : List Event) (c : Connection)
      → is c.state active ≡ false
      → (is (run es c).state active ≡ false)
        × ((is c.state terminated ≡ false) ⊎ ((run es c).state ≡ terminated))
  run_never_reopens es c h = Walk-final (run-Walk es c) h
