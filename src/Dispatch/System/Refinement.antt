-- ===== src/Dispatch/System/Refinement.antt =====
-- internal/dispatch/dispatcher.go: a turn of the loop of `worker` as steps of the system.
use runtime_pulse.Prelude.{
  ℕ, String, ◌≡◌, refl, ap, ◌∙◌, Bool, true, false, not, Option, none, some, List, [], ◌∷◌, map,
  any, filter, In, ok, ◌==◌, arith, inl, inr, Option-cases,
}
use runtime_pulse.Core.{Session, Continuation, session_running, session_waiting}
use runtime_pulse.Bus.{Bus}
use runtime_pulse.Store.Tables.{Db}
use runtime_pulse.Store.Sql.{Conn, healthy, run, exec, outcome}
use runtime_pulse.Store.Sessions.{find_session, get_session, set_session_state, set_state}
use runtime_pulse.Store.Ingest.Run.{ingest_cases, ingested as ingested_db, produced}
use runtime_pulse.Store.Continuations.{
  claim_rows, claim_continuation, result_row, set_result, update_continuation_result,
  oldest_pending, next_pending_for_session,
}
use runtime_pulse.Store.OneShot.History.{ingested, marked}
use runtime_pulse.Engine.{Engine, Draw, normalized, notify, engine_ingest}
use runtime_pulse.Engine.Order.{notified}
use runtime_pulse.Core.{Event}
use runtime_pulse.Dispatch.{
  Resume, Registry, adapter_for, Finding, Course, supervise, with_adapter, with_session,
  result_event, conclude, execute,
}
use runtime_pulse.Dispatch.Execution.{conclude_live}
use runtime_pulse.Dispatch.Workers.{Turn, leave, again, claimed_turn, next_turn, worker_turn}
use runtime_pulse.Dispatch.Workers.Drain.{with_session-settled}
use runtime_pulse.Dispatch.System.{
  resting, holding, executing, Worker, System, move, by_client, looks, leaves, claims, concludes,
  serves, Moves, stays, moves,
}
use runtime_pulse.Dispatch.System.Invariant.{In-move_self}

abbrev at : Db → List Worker → System
at db workers = record { db = db; workers = workers }

-- What a run leaves that touches the sessions only.
abbrev Reached : System → List Worker → Db → Conn → Type 0
Reached s workers db conn =
    (sessions : List Session) × Moves s (at (record db { sessions = sessions }) workers)
    × (conn ≡ healthy (record db { sessions = sessions }))

marks :
    (s : System) (workers : List Worker) (db db' : Db) (id : String) (state : String) (now : ℕ)
    → run (set_session_state id state now) db ≡ ok (tt, db')
    → Moves s (at db workers)
    → Moves s (at db' workers)
unfolding by_client
marks s workers db db' id state now h m =
    moves (at db workers) (at db' workers) m (serves db' (marked id state now (tt, h)) refl)

with_adapter-Reached :
    (s : System) (workers : List Worker) (reg : Registry) (k : Course) (sess : Session)
    (prompt : String) (a : Option Resume) (db : Db)
    → Moves s (at db workers)
    → Reached s workers db (with_adapter reg k sess prompt a (healthy db)).1
unfolding with_adapter supervise set_session_state set_state exec
with_adapter-Reached s workers reg k sess prompt none db m = (db.sessions, m, refl)
with_adapter-Reached s workers reg k sess prompt (some resume) db m = (
  _,
  marks s workers _ _ sess.session_id session_waiting k.stopped refl
      (marks s workers db _ sess.session_id session_running k.started refl m),
  refl,
)

with_session-Reached :
    (s : System) (workers : List Worker) (reg : Registry) (k : Course) (c : Continuation)
    (o : Option Session) (db : Db)
    → Moves s (at db workers)
    → Reached s workers db (with_session reg k c (ok o, healthy db)).1
unfolding with_session
with_session-Reached s workers reg k c none db m = (db.sessions, m, refl)
with_session-Reached s workers reg k c (some sess) db m =
    with_adapter-Reached s workers reg k sess c.prompt (adapter_for reg sess.agent) db m

engine-Moves :
    (s : System) (workers : List Worker) (d : Draw) (ev : Event) (db : Db) (bus : Bus)
    (awake : Bool)
    → Moves s (at db workers)
    → let e = (engine_ingest d ev (record { conn = healthy db; bus = bus; awake = awake })).1 in
      (db' : Db) × Moves s (at db' workers) × (e.conn ≡ healthy db')
unfolding by_client
engine-Moves s workers d ev db bus awake m =
    let e : Engine = record { conn = healthy db; bus = bus; awake = awake } in
    let n = normalized d ev in
    elim (ingest_cases d.templates d.codec n d.now d.ids db) [
      | inl (payload, ran) ↦ (
        ingested_db d.templates d.codec n d.now d.ids payload db,
        moves (at db workers) _ m (
            serves _
              (ingested d.templates d.codec n d.now d.ids
                (produced d.templates d.codec n d.now d.ids payload db, ap outcome ran))
              refl),
        unfold notify in ap (λ r. r.1.conn) (notified d ev e _ _ ran),
      )
      | inr (x, ran) ↦ (db, m, unfold notify in ap (λ r. r.1.conn) (notified d ev e _ _ ran))
    ]

module _ (s : System) (w : Worker) (reg : Registry) (k : Course) (d : Draw) (bus : Bus)
    (awake : Bool) where
  execute-Moves :
      (workers : List Worker) (c : Continuation) (db : Db)
      → k.cancelled ≡ false
      → In (record w { phase = executing c }) workers
      → Moves s (at db workers)
      → let e = execute reg k d c (record { conn = healthy db; bus = bus; awake = awake }) in
        (db' : Db) × Moves s (at db' (move w.session resting workers)) × (e.conn ≡ healthy db')
  unfolding execute get_session update_continuation_result set_result exec
  execute-Moves workers c db live i m =
      let before : Engine = record { conn = healthy db; bus = bus; awake = awake } in
      let o = find_session c.session_id db.sessions in
      let f : Finding = (with_session reg k c (ok o, healthy db)).0 in
      let (sessions, m1, left) = with_session-Reached s workers reg k c o db m in
      let db1 : Db = record db { sessions = sessions } in
      let db2 : Db = record db1 {
        continuations = map (result_row c.id f.verdict k.recorded) db.continuations;
      } in
      let m2 : Moves s (at db2 (move w.session resting workers)) = moves _ _ m1 (
        concludes (record w { phase = executing c }) c f.verdict k.recorded db2 i refl
          (with_session-settled reg k c o (healthy db)) refl) in
      let (db3, m3, conn) =
        engine-Moves s (move w.session resting workers) d (result_event c f) db2 bus awake m2 in
      (
        db3,
        m3,
        ap (λ conn. (conclude k d c before (f, conn)).conn) left
            ∙ ap (λ e. e.conn) (conclude_live k d c before f db1 live)
            ∙ conn,
      )

-- After a turn that leaves, the session has no worker; after another, its worker rests.
abbrev pub Ended : Worker → Turn → List Worker → Type 0
Ended w leave workers = any (λ v. v.session == w.session) workers ≡ false
Ended w again workers = In (record w { phase = resting }) workers

dismissed :
    (session : String) (workers : List Worker)
    → any (λ v. v.session == session) (filter (λ v. not (v.session == session)) workers) ≡ false
dismissed session [] = refl
dismissed session (w ∷ workers) = ground (arith, dismissed session workers)

module _ (reg : Registry) (k : Course) (d : Draw) (now : ℕ) (s : System) (w : Worker) (bus : Bus)
    (awake : Bool) where
  abbrev Simulated : Turn × Engine → Type 0
  Simulated (turn, e) = (t : System) × Moves s t × (e.conn ≡ healthy t.db) × Ended w turn t.workers

  claimed_turn-Moves :
      (c : Continuation) (got : Bool) (db : Db)
      → k.cancelled ≡ false
      → In w s.workers
      → Moves s (at s.db (move w.session (holding c) s.workers))
      → run (claim_continuation c.id now) s.db ≡ ok (got, db)
      → Simulated (
          claimed_turn reg k d c
            (record { conn = healthy s.db; bus = bus; awake = awake })
            (ok got, healthy db))
  unfolding claimed_turn
  claimed_turn-Moves c true db live i m h =
      let held = In-move_self w.session (holding c) s.workers w refl i in
      let ran = In-move_self w.session (executing c) _ (record w { phase = holding c }) refl held in
      let m1 = moves _ _ m (claims (record w { phase = holding c }) c now true db held refl h) in
      let (db', m2, conn) = execute-Moves s w reg k d bus awake _ c db live ran m1 in
      (
        at db' _,
        m2,
        conn,
        In-move_self w.session resting _ (record w { phase = executing c }) refl ran,
      )
  claimed_turn-Moves c false db live i m h =
      let held = In-move_self w.session (holding c) s.workers w refl i in
      let m1 = moves _ _ m (claims (record w { phase = holding c }) c now false db held refl h) in
      (
        at db _,
        m1,
        refl,
        In-move_self w.session resting _ (record w { phase = holding c }) refl held,
      )

  -- A turn of the loop of `worker`, on a healthy connection and while the daemon is not shut down, is
  -- a sequence of steps of the system in which its worker looks, claims, executes and concludes: it
  -- ends with the tables of that sequence, the worker resting again, or gone if it left.
  pub worker_turn_refines :
      k.cancelled ≡ false
      → In w s.workers
      → w.phase ≡ resting
      → let (turn, e) =
          worker_turn reg k d now w.session
            (record { conn = healthy s.db; bus = bus; awake = awake }) in
        (t : System) × Moves s t × (e.conn ≡ healthy t.db) × Ended w turn t.workers
  unfolding worker_turn next_turn next_pending_for_session claim_continuation claim_rows exec
  worker_turn_refines live i rests =
      elim (Option-cases (oldest_pending w.session s.db.continuations)) [
        | inl e ↦ rw e (
          record s { workers = filter (λ v. not (v.session == w.session)) s.workers },
          moves s _ stays (leaves w i rests (rw e)),
          refl,
          dismissed w.session s.workers,
        )
        | inr (c, e) ↦
            rw e (claimed_turn-Moves c _ _ live i (moves s _ stays (looks w c i rests (rw e))) refl)
      ]
