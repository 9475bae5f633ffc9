-- ===== src/Mux/Session/Closing.antt =====
-- How a manager of sessions is closed, and that it stays so.
use xray_core_python.Prelude.{
  ℕ, ◌≡◌, ◌⊎◌, refl, true, false, ◌&&◌, List, [], ◌∷◌, map, ◌==◌, if◌then◌else◌, length, All, arith,
  Bool-cases, inl, inr,
}
use xray_core_python.Mux.Session.{
  Session, SessionManager, ClientStrategy, size, allocate, add, remove,
  close_if_no_session_and_idle, close_resources, close_session, close_all, close,
}

pub data Operation : Type 0 where
  on_allocate : ClientStrategy → Operation
  on_add : Session → Operation
  on_remove : ℕ → Operation
  on_idle : ℕ → ℕ → Operation
  on_close_session : ℕ → Session → Operation
  on_close : ℕ → Operation

pub step : Operation → SessionManager → SessionManager
step (on_allocate strategy) m = (allocate strategy m).0
step (on_add s) m = (add s m).0
step (on_remove id) m = remove id m
step (on_idle check_size check_count) m = (close_if_no_session_and_idle check_size check_count m).0
step (on_close_session now s) m = (close_session now s m).0
step (on_close now) m = (close now m).0

pub run : List Operation → SessionManager → SessionManager
run [] m = m
run (o ∷ os) m = run os (step o m)

remove_closed : (id : ℕ) (m : SessionManager) → m.closed ≡ true → remove id m ≡ m
unfolding remove
remove_closed id m c = rw c refl

close_session_closed :
    (now : ℕ) (s : Session) (m : SessionManager) → m.closed ≡ true → (close_session now s m).0 ≡ m
unfolding close_session
close_session_closed now s m c = elim (Bool-cases s.closed) [
  | inl e ↦ rw e refl
  | inr e ↦ rw e (remove_closed s.id m c)
]

step_closed : (o : Operation) (m : SessionManager) → m.closed ≡ true → step o m ≡ m
unfolding step allocate add close_if_no_session_and_idle close
step_closed (on_allocate strategy) m c = rw c refl
step_closed (on_add s) m c = rw c refl
step_closed (on_remove id) m c = remove_closed id m c
step_closed (on_idle check_size check_count) m c = rw c refl
step_closed (on_close_session now s) m c = close_session_closed now s m c
step_closed (on_close now) m c = rw c refl

-- No run of operations, whatever their arguments, changes a manager that is closed.
pub run_closed : (os : List Operation) (m : SessionManager) → m.closed ≡ true → run os m ≡ m
unfolding run
run_closed [] m c = refl
run_closed (o ∷ os) m c = rw (step_closed o m c) (run_closed os m c)

-- A session as `Session.Close` leaves it.
abbrev pub closed_session : ℕ → Session → Session
closed_session now s = if s.closed then s else close_resources now s

close_session-closed :
    (now : ℕ) (s : Session) (m : SessionManager) → (close_session now s m).1 ≡ closed_session now s
unfolding close_session
close_session-closed now s m = elim (Bool-cases s.closed) [ inl e ↦ rw e refl | inr e ↦ rw e refl ]

closed_session_closed : (now : ℕ) (s : Session) → (closed_session now s).closed ≡ true
unfolding close_resources
closed_session_closed now s = ground arith

close_all_lem :
    (now : ℕ) (l : List (ℕ × Session)) (m : SessionManager)
    → m.closed ≡ true
    → close_all now l m ≡ (m, map (λ (e : ℕ × Session). closed_session now e.1) l)
close_all_lem now [] m c = refl
close_all_lem now ((id, s) ∷ l) m c =
    rw (close_session_closed now s m c, close_session-closed now s m, close_all_lem now l m c) refl

All-closed :
    (now : ℕ) (l : List (ℕ × Session))
    → All (λ s. s.closed ≡ true) (map (λ (e : ℕ × Session). closed_session now e.1) l)
All-closed now [] = tt
All-closed now ((id, s) ∷ l) = (closed_session_closed now s, All-closed now l)

close_closed : (now : ℕ) (m : SessionManager) → m.closed ≡ true → close now m ≡ (m, [])
unfolding close
close_closed now m c = rw c refl

close_open :
    (now : ℕ) (m : SessionManager)
    → m.closed ≡ false
    → close now m ≡ (
      record m { sessions = []; closed = true },
      map (λ (e : ℕ × Session). closed_session now e.1) m.sessions,
    )
unfolding close
close_open now m o = rw (o, close_all_lem now m.sessions (record m { closed = true }) refl) refl

no_sessions : (l : List (ℕ × Session)) → (length l == 0) ≡ true → [] ≡ l
no_sessions [] h = refl
no_sessions (x ∷ l) h = absurd (ground arith)

-- To close a manager that is open closes each of its sessions once, in the map's order, and
-- leaves no session; one that is closed stays as it is. Every session it went through is closed.
pub close_lem :
    (now : ℕ) (m : SessionManager)
    → let (m', sessions) = close now m in
      (m'.closed ≡ true)
      × All (λ s. s.closed ≡ true) sessions
      × ((m.closed ≡ true) × (m' ≡ m) × (sessions ≡ [])
          ⊎ (m.closed ≡ false)
            × (m'.sessions ≡ [])
            × (m'.count ≡ m.count)
            × (sessions ≡ map (λ (e : ℕ × Session). closed_session now e.1) m.sessions))
close_lem now m = elim (Bool-cases m.closed) [
  | inl c ↦ rw (close_closed now m c) (c, tt, inl (c, refl, refl))
  | inr o ↦ rw (close_open now m o) (refl, All-closed now m.sessions, inr (o, refl, refl, refl))
]

-- The idle check closes a manager exactly where it says so. It gives up no session: it answers yes
-- for an open manager only where there is none, the caller saw none, and none was opened since.
pub close_if_no_session_and_idle_lem :
    (check_size check_count : ℕ) (m : SessionManager)
    → let (m', idle) = close_if_no_session_and_idle check_size check_count m in
      (m'.closed ≡ idle)
      × (m'.sessions ≡ m.sessions)
      × ((m.closed ≡ true) × (idle ≡ true)
          ⊎ (m.closed ≡ false)
            × (idle ≡ (size m == 0 && check_size == 0 && check_count == m.count)))
unfolding close_if_no_session_and_idle
close_if_no_session_and_idle_lem check_size check_count m = ground (arith, no_sessions m.sessions)
