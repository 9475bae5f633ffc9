-- ===== src/Kcp/Connection/Closing.antt =====
-- How a closed connection ends: the flushes that take it to its last state.
use xray_core_python.Prelude.{
  ℕ, ◌+◌, ◌^◌, ◌≤◌, ◌<◌, ◌≡◌, refl, ap, ◌∙◌, true, false, ◌==◌, if◌then◌else◌, ltb, u32, sub32,
  arith, Bool-cases, inl, inr,
}
use xray_core_python.Kcp.Segment.{command_terminate}
use xray_core_python.Kcp.Connection.{
  State, active, ready_to_close, peer_closed, terminating, peer_terminating, terminated, is,
  Connection, ping,
}
use xray_core_python.Kcp.Sending.Worker.{nothing_pending}
use xray_core_python.Kcp.Connection.Events.{
  set_state, flush_closing, flush_terminating, flush, now, ticked,
}
use xray_core_python.Kcp.Connection.Transitions.{set_state-state}

module _ (clock : ℕ → ℕ) where
  set_state-begin :
      (s : State) (c : Connection)
      → ((set_state clock s c).state_begin_time ≡ now clock c)
        × ((set_state clock s c).reads ≡ c.reads + 1)
  unfolding set_state
  set_state-begin active c = (refl, refl)
  set_state-begin ready_to_close c = (refl, refl)
  set_state-begin peer_closed c = (refl, refl)
  set_state-begin terminating c = (refl, refl)
  set_state-begin peer_terminating c = (refl, refl)
  set_state-begin terminated c = (refl, refl)

  flush_closing_ready :
      (current : ℕ) (c : Connection)
      → c.state ≡ ready_to_close
      → nothing_pending c.sending ≡ true
      → flush_closing clock current c ≡ set_state clock terminating c
  unfolding flush_closing
  flush_closing_ready current c e p = ground arith

  flush_terminating-state :
      (current : ℕ) (c : Connection)
      → (flush_terminating clock current c).state
        ≡ (if ltb 8000 (sub32 current c.state_begin_time) then terminated else c.state)
  unfolding flush_terminating ping
  flush_terminating-state current c =
      elim (Bool-cases (ltb 8000 (sub32 current c.state_begin_time))) [
        | inl over ↦ rw over (set_state-state clock terminated (ping current command_terminate c))
        | inr wait ↦ rw wait
      ]

  flush_live :
      (c : Connection)
      → is c.state terminated ≡ false
      → is (flush_closing clock (now clock c) (ticked clock c)).state terminating ≡ true
      → flush clock c
        ≡ flush_terminating clock (now clock c) (flush_closing clock (now clock c) (ticked clock c))
  unfolding flush
  flush_live c live closing = rw (live, closing)

  is-terminated : (s : State) → s ≡ ready_to_close → is s terminated ≡ false
  is-terminated s e = ap (λ s. is s terminated) e

  skipped :
      (t u : ℕ)
      → t ≤ u
      → u < 2 ^ 32
      → u ≤ t + 1000
      → (if ltb 8000 (sub32 (u32 t) (u32 u)) then terminated else terminating)
        ≡ (if t == u then terminating else terminated)
  skipped t u le small near = ground arith

  flush_terminating-entered :
      (current : ℕ) (c c1 : Connection)
      → c1 ≡ set_state clock terminating c
      → (flush_terminating clock current c1).state
        ≡ (if ltb 8000 (sub32 current (now clock c)) then terminated else terminating)
  flush_terminating-entered current c c1 e =
      flush_terminating-state current c1
      ∙ ap (λ d. if ltb 8000 (sub32 current d.state_begin_time) then terminated else d.state) e
      ∙ ap
          (λ t.
            if ltb 8000 (sub32 current t)
            then terminated
            else (set_state clock terminating c).state)
          (set_state-begin terminating c).0
      ∙ ap (λ s. if ltb 8000 (sub32 current (now clock c)) then terminated else s)
          (set_state-state clock terminating c)

  -- A connection that was closed here, with nothing left to send, is flushed. `flush` reads the
  -- clock before `SetState` does; the clock does not go back or wrap in between, and moves by a
  -- second at most. Where both find the same millisecond the connection is terminating, as the
  -- protocol wants; where the clock has moved on, the difference wraps around, and the 8 s of the
  -- terminating state are skipped: it is terminated at once.
  pub flush_ready_to_close :
      (c : Connection)
      → c.state ≡ ready_to_close
      → nothing_pending c.sending ≡ true
      → clock c.reads ≤ clock (c.reads + 1)
      → clock (c.reads + 1) < 2 ^ 32
      → clock (c.reads + 1) ≤ clock c.reads + 1000
      → (flush clock c).state
        ≡ (if clock c.reads == clock (c.reads + 1) then terminating else terminated)
  unfolding flush
  flush_ready_to_close c e p le small near =
      let e1 = flush_closing_ready (now clock c) (ticked clock c) e p in
      ap (λ d. d.state)
        (flush_live c (is-terminated c.state e) (
          ap (λ d. is d.state terminating) e1
          ∙ ap (λ s. is s terminating) (set_state-state clock terminating (ticked clock c))))
      ∙ flush_terminating-entered (now clock c) (ticked clock c)
          (flush_closing clock (now clock c) (ticked clock c)) e1
      ∙ skipped (clock c.reads) (clock (c.reads + 1)) le small near
