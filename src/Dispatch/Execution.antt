-- ===== src/Dispatch/Execution.antt =====
-- execute of internal/dispatch/dispatcher.go: the row and the verdict of a run.
use runtime_pulse.Prelude.{
  ℤ, pos, negsuc, zero, suc, String, ◌≡◌, ◌↔◌, refl, ap, ◌∙◌, Bool, true, false, Option, none, some,
  List, map, ok,
}
use runtime_pulse.Bus.{Bus}
use runtime_pulse.Core.{Session, Continuation, completed}
use runtime_pulse.Store.Tables.{Db}
use runtime_pulse.Store.Sql.{Conn, healthy, exec}
use runtime_pulse.Store.Sessions.{find_session, get_session, set_session_state, set_state}
use runtime_pulse.Store.Continuations.{result_row, set_result, update_continuation_result}
use runtime_pulse.Engine.{Engine, Draw, engine_ingest}
use runtime_pulse.Dispatch.{
  RunResult, Resume, Registry, adapter_for, Finding, state_of_exit, finding_of_run, Course,
  supervise, with_adapter, with_session, result_event, conclude, execute,
}

-- The adapter of a registered session was started and its agent ended with exit code 0.
abbrev pub Succeeds : Registry → Continuation → List Session → Type 0
Succeeds reg c sessions =
    (sess : Session) × (resume : Resume) × (find_session c.session_id sessions ≡ some sess)
    × (adapter_for reg sess.agent ≡ some resume)
    × ((resume sess c.prompt).1 ≡ none)
    × ((resume sess c.prompt).0.exit_code ≡ pos zero)

state_of_exit-completed : (code : ℤ) → (state_of_exit code ≡ completed) ↔ (code ≡ pos zero)
state_of_exit-completed (pos zero) = (λ h. refl, λ h. refl)
state_of_exit-completed (pos (suc n)) = (λ h. absurd (cc h), λ h. absurd (cc h))
state_of_exit-completed (negsuc n) = (λ h. absurd (cc h), λ h. absurd (cc h))

run-completed :
    (res : RunResult) (e : Option String)
    → ((finding_of_run res e).verdict.state ≡ completed) ↔ ((e ≡ none) × (res.exit_code ≡ pos zero))
unfolding finding_of_run
run-completed res none = (
  λ h. (refl, (state_of_exit-completed res.exit_code).0 h),
  λ h. (state_of_exit-completed res.exit_code).1 h.1,
)
run-completed res (some x) = (λ h. absurd (cc h), λ h. absurd (cc (h.0)))

with_adapter-completed :
    (reg : Registry) (k : Course) (sess : Session) (prompt : String) (a : Option Resume)
    (conn : Conn)
    → ((with_adapter reg k sess prompt a conn).0.verdict.state ≡ completed) ↔ (
        (resume : Resume) × (a ≡ some resume)
        × ((resume sess prompt).1 ≡ none)
        × ((resume sess prompt).0.exit_code ≡ pos zero))
unfolding with_adapter supervise
with_adapter-completed reg k sess prompt none conn =
    (λ h. absurd (cc h), λ (resume, e, started, exited). absurd (cc e))
with_adapter-completed reg k sess prompt (some resume) conn = (
  λ h.
      let (started, exited) = (run-completed (resume sess prompt).0 (resume sess prompt).1).0 h in
      (resume, refl, started, exited),
  λ (run, e, started, exited).
      let same : resume ≡ run = cc e in
      (run-completed (resume sess prompt).0 (resume sess prompt).1).1
        (rw same started, rw same exited),
)

pub with_session-completed :
    (reg : Registry) (k : Course) (c : Continuation) (o : Option Session) (conn : Conn)
    → ((with_session reg k c (ok o, conn)).0.verdict.state ≡ completed) ↔ (
        (sess : Session) × (resume : Resume) × (o ≡ some sess)
        × (adapter_for reg sess.agent ≡ some resume)
        × ((resume sess c.prompt).1 ≡ none)
        × ((resume sess c.prompt).0.exit_code ≡ pos zero))
unfolding with_session
with_session-completed reg k c none conn =
    (λ h. absurd (cc h), λ (sess, resume, e, found, started, exited). absurd (cc e))
with_session-completed reg k c (some s) conn =
    let run = with_adapter-completed reg k s c.prompt (adapter_for reg s.agent) conn in
    (
      λ h.
          let (resume, found, started, exited) = run.0 h in
          (s, resume, refl, found, started, exited),
      λ (sess, resume, e, found, started, exited).
          let same : s ≡ sess = cc e in
          run.1 (resume, rw same found, rw same started, rw same exited),
    )

with_adapter-rows :
    (reg : Registry) (k : Course) (sess : Session) (prompt : String) (a : Option Resume) (db : Db)
    → (sessions : List Session) × ((with_adapter reg k sess prompt a (healthy db)).1
        ≡ healthy (record db { sessions = sessions }))
unfolding with_adapter supervise set_session_state set_state exec
with_adapter-rows reg k sess prompt none db = (db.sessions, refl)
with_adapter-rows reg k sess prompt (some resume) db = (_, refl)

-- The switch touches the sessions only.
pub with_session-rows :
    (reg : Registry) (k : Course) (c : Continuation) (o : Option Session) (db : Db)
    → (sessions : List Session) × ((with_session reg k c (ok o, healthy db)).1
        ≡ healthy (record db { sessions = sessions }))
unfolding with_session
with_session-rows reg k c none db = (db.sessions, refl)
with_session-rows reg k c (some s) db =
    with_adapter-rows reg k s c.prompt (adapter_for reg s.agent) db

-- The end of an execution that is cut short, and of one that is not.
pub conclude_cut :
    (k : Course) (d : Draw) (c : Continuation) (e : Engine) (f : Finding) (conn : Conn)
    → k.cancelled ≡ true
    → conclude k d c e (f, conn) ≡ record e { conn = conn }
unfolding conclude
conclude_cut k d c e f conn cut = rw cut refl

pub conclude_live :
    (k : Course) (d : Draw) (c : Continuation) (e : Engine) (f : Finding) (db : Db)
    → k.cancelled ≡ false
    → let rows = map (result_row c.id f.verdict k.recorded) db.continuations in
      conclude k d c e (f, healthy db)
      ≡ (engine_ingest d
          (result_event c f)
          (record e { conn = healthy (record db { continuations = rows }) })).1
unfolding conclude update_continuation_result set_result exec
conclude_live k d c e f db live = rw live refl

-- When the daemon shuts down during the execution, the continuation stays as it was claimed, for
-- the recovery at the next start: on a healthy connection nothing but the sessions may differ, no
-- event is recorded or published, and the dispatcher is not woken.
pub interruption_leaves_work :
    (reg : Registry) (k : Course) (d : Draw) (c : Continuation) (db : Db) (bus : Bus) (awake : Bool)
    → k.cancelled ≡ true
    → (sessions : List Session) × (execute reg k d c
          (record { conn = healthy db; bus = bus; awake = awake })
        ≡ record { conn = healthy (record db { sessions = sessions }); bus = bus; awake = awake })
unfolding execute get_session exec
interruption_leaves_work reg k d c db bus awake cut =
    let before : Engine = record { conn = healthy db; bus = bus; awake = awake } in
    let (sessions, left) = with_session-rows reg k c (find_session c.session_id db.sessions) db in
    let o = find_session c.session_id db.sessions in
    let s = with_session reg k c (ok o, healthy db) in
    (
      sessions,
      conclude_cut k d c before s.0 s.1 cut ∙ ap (λ conn. record before { conn = conn }) left,
    )
