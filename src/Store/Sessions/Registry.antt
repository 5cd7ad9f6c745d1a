-- ===== src/Store/Sessions/Registry.antt =====
-- RegisterSession of store/sessions.go: a session that registers again.
use runtime_pulse.Prelude.{
  ℕ, String, ◌≡◌, refl, true, some, List, [], ◌∷◌, map, any, filter, head?, ok, ◌==◌, inl, inr,
  Bool-cases,
}
use runtime_pulse.Core.{Session, session_waiting}
use runtime_pulse.Store.Tables.{Db}
use runtime_pulse.Store.Sql.{run, exec}
use runtime_pulse.Store.Sessions.{
  find_session, get_session, refresh_row, upsert_session, with_default_state, register_session,
}

any-find :
    (id : String) (l : List Session) (old : Session)
    → head? (filter (λ s. s.session_id == id) l) ≡ some old
    → any (λ s. s.session_id == id) l ≡ true
any-find id [] old h = absurd (cc h)
any-find id (x ∷ l) old h = elim (Bool-cases (x.session_id == id)) [
  | inl e ↦ rw e refl
  | inr e ↦ rw e (any-find id l old (rw e at h))
]

find-refresh :
    (new : Session) (now : ℕ) (l : List Session) (old : Session)
    → head? (filter (λ s. s.session_id == new.session_id) l) ≡ some old
    → head? (filter (λ s. s.session_id == new.session_id) (map (refresh_row new now) l))
      ≡ some (record old { agent = new.agent; repo_path = new.repo_path; updated_at = now })
find-refresh new now [] old h = absurd (cc h)
find-refresh new now (x ∷ l) old h = elim (Bool-cases (x.session_id == new.session_id)) [
  | inl e ↦
      let found : some x ≡ some old = rw e at h in
      let same : x ≡ old = cc found in rw (e, e) (rw same refl)
  | inr e ↦ rw (e, e) (find-refresh new now l old (rw e at h))
]

-- A session that registers again keeps its state and the time of its creation, and gets the agent,
-- the repository and the time of the new registration; what is returned is what the table holds.
pub register_session-keeps :
    (new : Session) (now : ℕ) (db : Db) (old : Session)
    → find_session new.session_id db.sessions ≡ some old
    → run (register_session new now) db
      ≡ ok (
        record old { agent = new.agent; repo_path = new.repo_path; updated_at = now },
        record db { sessions = map (refresh_row (with_default_state new) now) db.sessions },
      )
unfolding register_session upsert_session get_session find_session exec
register_session-keeps new now db old h =
    let there = any-find new.session_id db.sessions old h in
    elim (Bool-cases (new.state == "")) [
      | inl e ↦ rw e (
          rw there
            (rw (find-refresh (record new { state = session_waiting }) now db.sessions old h) refl))
      | inr e ↦ rw e (rw there (rw (find-refresh new now db.sessions old h) refl))
    ]
