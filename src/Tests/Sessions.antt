-- ===== src/Tests/Sessions.antt =====
-- Sessions at concrete inputs.
use xray_core_python.Prelude.{false, [], ◌∷◌}
use xray_core_python.Mux.Session.{SessionManager, ClientStrategy, new_session}

abbrev strategy : ClientStrategy
strategy = record { max_concurrency = 8; max_connection = 128 }

-- Sessions 1 and 2 are over.
abbrev manager : SessionManager
manager = record {
  sessions = (4, new_session 4) ∷ (3, new_session 3) ∷ [];
  count = 4;
  closed = false;
}
