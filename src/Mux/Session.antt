-- ===== src/Mux/Session.antt =====
-- xray-go/common/mux/session.go: the sessions of one connection. The map is an association list.
-- Each method runs alone, under the lock. What `Session.Close` does to the reader, the writer and
-- the `done` signal is noted in the session, and the time is an argument.
pub mod Allocation
pub mod Closing
use xray_core_python.Prelude.{
  ℕ, ◌+◌, ◌%◌, ◌^◌, Bool, true, false, ◌&&◌, ◌||◌, not, Option, none, some, List, [], ◌∷◌, map, ltb,
  leb, ◌==◌, if◌then◌else◌, length, u16, is_some, lookup, erase, insert,
}

pub data Status : Type 0 where
  initializing active expiring : Status

pub record Xudp : Type 0 where
  pub global_id : List ℕ
  pub status : Status
  -- In seconds.
  pub expire : ℕ

pub record Session : Type 0 where
  pub id : ℕ
  pub xudp : Option Xudp
  pub closed : Bool
  pub has_done : Bool
  pub done_closed : Bool
  pub input_interrupted : Bool
  pub output_closed : Bool
  -- `ReturnAnError` made a waiting read of the input return, and `Recover` took the error back.
  pub input_returned : Bool

pub record SessionManager : Type 0 where
  pub sessions : List (ℕ × Session)
  pub count : ℕ
  pub closed : Bool

-- The two limits, both uint32; 0 is no limit.
pub record ClientStrategy : Type 0 where
  pub max_concurrency : ℕ
  pub max_connection : ℕ

abbrev pub new_session_manager : SessionManager
new_session_manager = record { sessions = []; count = 0; closed = false }

abbrev pub size : SessionManager → ℕ
size m = length m.sessions

abbrev pub new_session : ℕ → Session
new_session id = record {
  id = id;
  xudp = none;
  closed = false;
  has_done = true;
  done_closed = false;
  input_interrupted = false;
  output_closed = false;
  input_returned = false;
}

unfoldable pub allocate : ClientStrategy → SessionManager → SessionManager × Option Session
allocate strategy m =
    let max_concurrency = strategy.max_concurrency in
    let max_connection = u16 strategy.max_connection in
    if m.closed
      || (ltb 0 max_concurrency && leb max_concurrency (size m))
      || (ltb 0 max_connection && leb max_connection m.count)
    then (m, none)
    else let count = u16 (m.count + 1) in
      let s = new_session count in
      (record m { count = count; sessions = insert count s m.sessions }, some s)

unfoldable pub add : Session → SessionManager → SessionManager × Bool
add s m =
    if m.closed
    then (m, false)
    else (record m { count = u16 (m.count + 1); sessions = insert s.id s m.sessions }, true)

unfoldable pub remove : ℕ → SessionManager → SessionManager
remove id m = if m.closed then m else record m { sessions = erase id m.sessions }

unfoldable pub get : ℕ → SessionManager → Option Session
get id m = if m.closed then none else lookup id m.sessions

unfoldable pub close_if_no_session_and_idle : ℕ → ℕ → SessionManager → SessionManager × Bool
close_if_no_session_and_idle check_size check_count m =
    if m.closed
    then (m, true)
    else if not (size m == 0) || not (check_size == 0) || not (check_count == m.count)
    then (m, false)
    else (record m { closed = true; sessions = [] }, true)

-- The XUDP of a session that is closed waits for a minute to be taken up again.
abbrev pub expire_xudp : ℕ → Xudp → Xudp
expire_xudp now x = elim x.status [
  | active ↦ record x { expire = now + 60; status = expiring }
  | initializing ↦ x
  | expiring ↦ x
]

-- What `Session.Close` does to the session itself.
unfoldable pub close_resources : ℕ → Session → Session
close_resources now s =
    let s1 = record s { closed = true; done_closed = s.done_closed || s.has_done } in
    elim s.xudp [
      | none ↦ record s1 { input_interrupted = true; output_closed = true }
      | some x ↦ record s1 { input_returned = true; xudp = some (expire_xudp now x) }
    ]

-- `Session.Close`, of a session whose parent is `m`.
unfoldable pub close_session : ℕ → Session → SessionManager → SessionManager × Session
close_session now s m = if s.closed then (m, s) else (remove s.id m, close_resources now s)

-- The sessions of the manager, closed one by one; each removal finds the manager closed.
abbrev pub close_all : ℕ → List (ℕ × Session) → SessionManager → SessionManager × List Session
close_all now [] m = (m, [])
close_all now ((id, s) ∷ rest) m =
    let (m1, s1) = close_session now s m in
    let (m2, closed_sessions) = close_all now rest m1 in (m2, s1 ∷ closed_sessions)

-- `SessionManager.Close`, and the sessions that it closed.
unfoldable pub close : ℕ → SessionManager → SessionManager × List Session
close now m =
    if m.closed
    then (m, [])
    else let (m1, closed_sessions) = close_all now m.sessions (record m { closed = true }) in
      (record m1 { sessions = [] }, closed_sessions)
