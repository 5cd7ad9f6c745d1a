-- ===== src/Store/Sessions.antt =====
-- store/sessions.go: the session registry.
pub mod Registry
use runtime_pulse.Prelude.{
  ℕ, String, Option, none, some, List, [], ◌∷◌, ◌++◌, map, ok, leb, any, filter, head?, ◌==◌,
  if◌then◌else◌,
}
use runtime_pulse.Prelude.Order.{sort_by}
use runtime_pulse.Core.{Session, SessionState, session_waiting}
use runtime_pulse.Store.Tables.{Statement}
use runtime_pulse.Store.Sql.{Sql, exec, ◌>>=◌, ◌>>◌, pure}

-- SELECT … FROM sessions WHERE session_id = ?
unfoldable pub find_session : String → List Session → Option Session
find_session id l = head? (filter (λ s. s.session_id == id) l)

-- GetSession; sql.ErrNoRows is `none`.
unfoldable pub get_session : String → Sql (Option Session)
get_session id = exec (λ db. ok (find_session id db.sessions, db))

-- ON CONFLICT(session_id) DO UPDATE SET agent, repo_path, updated_at
abbrev pub refresh_row : Session → ℕ → Session → Session
refresh_row new now s =
    if s.session_id == new.session_id
    then record s { agent = new.agent; repo_path = new.repo_path; updated_at = now }
    else s

unfoldable pub upsert_session : Session → ℕ → Statement (Unit {0})
upsert_session new now db = ok (
  tt,
  record db {
    sessions =
        if any (λ s. s.session_id == new.session_id) db.sessions
        then map (refresh_row new now) db.sessions
        else db.sessions ++ record new { created_at = now; updated_at = now } ∷ [];
  },
)

-- Go's zero value.
abbrev pub no_session : Session
no_session = record {
  session_id = "";
  agent = "";
  repo_path = "";
  state = "";
  created_at = 0;
  updated_at = 0;
}

abbrev pub with_default_state : Session → Session
with_default_state s = if s.state == "" then record s { state = session_waiting } else s

abbrev pub or_no_session : Option Session → Session
or_no_session none = no_session
or_no_session (some s) = s

-- RegisterSession: the session is read back from the table.
unfoldable pub register_session : Session → ℕ → Sql Session
register_session sess now = do
  exec (upsert_session (with_default_state sess) now)
  stored ← get_session sess.session_id
  pure (or_no_session stored)

-- ListSessions
unfoldable pub list_sessions : Sql (List Session)
list_sessions = exec (λ db. ok (sort_by (λ a b. leb a.created_at b.created_at) db.sessions, db))

abbrev pub state_row : String → SessionState → ℕ → Session → Session
state_row id st now s = if s.session_id == id then record s { state = st; updated_at = now } else s

unfoldable pub set_state : String → SessionState → ℕ → Statement (Unit {0})
set_state id st now db = ok (tt, record db { sessions = map (state_row id st now) db.sessions })

-- SetSessionState
unfoldable pub set_session_state : String → SessionState → ℕ → Sql (Unit {0})
set_session_state id st now = exec (set_state id st now)
