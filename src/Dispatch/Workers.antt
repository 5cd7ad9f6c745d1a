-- ===== src/Dispatch/Workers.antt =====
-- internal/dispatch/dispatcher.go: the scan for work and the loop of a worker.
pub mod Sessions
pub mod Drain
use runtime_pulse.Prelude.{
  ℕ, String, Bool, true, false, not, Option, none, some, List, [], ◌∷◌, ◌++◌, any, filter, Result,
  ok, err, ◌==◌, if◌then◌else◌,
}
use runtime_pulse.Core.{Continuation}
use runtime_pulse.Store.Sql.{Conn}
use runtime_pulse.Store.Continuations.{
  pending_sessions, next_pending_for_session, claim_continuation, reset_running_continuations,
}
use runtime_pulse.Engine.{Engine, Draw}
use runtime_pulse.Dispatch.{Registry, Course, attempt, execute}

-- The engine and the sessions that have a live worker.
pub record Dispatcher : Type 0 where
  pub engine : Engine
  pub workers : List String

-- The loop of `scan` over the sessions with work: the workers, with the new ones at the end.
unfoldable pub spawn_all : List String → List String → List String
spawn_all [] workers = workers
spawn_all (s ∷ sessions) workers =
    if any (λ w. w == s) workers
    then spawn_all sessions workers
    else spawn_all sessions (workers ++ s ∷ [])

abbrev pub scanned : Dispatcher → Result (List String) × Conn → Dispatcher
scanned d (err e, c) = record d { engine = record d.engine { conn = c } }
scanned d (ok sessions, c) = record d {
  engine = record d.engine { conn = c };
  workers = spawn_all sessions d.workers;
}

-- Dispatcher.scan
unfoldable pub scan : Dispatcher → Dispatcher
unfolding spawn_all
scan d = scanned d (pending_sessions d.engine.conn)

-- Dispatcher.Run before its loop: the recovery of orphaned work.
unfoldable pub boot : ℕ → Dispatcher → Dispatcher
boot now d = record d {
  engine = record d.engine { conn = attempt (reset_running_continuations now) d.engine.conn };
}

-- How a turn of a worker's loop ends.
pub data Turn : Type 0 where
  leave again : Turn

-- The claim, and the execution if it succeeds.
unfoldable pub claimed_turn :
    Registry → Course → Draw → Continuation → Engine → Result Bool × Conn → Turn × Engine
claimed_turn reg k d c e (ok true, conn) = (again, execute reg k d c (record e { conn = conn }))
claimed_turn reg k d c e (ok false, conn) = (again, record e { conn = conn })
claimed_turn reg k d c e (err x, conn) = (again, record e { conn = conn })

unfoldable pub next_turn :
    Registry → Course → Draw → ℕ → Engine → Result (Option Continuation) × Conn → Turn × Engine
unfolding claimed_turn
next_turn reg k d now e (err x, conn) = (leave, record e { conn = conn })
next_turn reg k d now e (ok none, conn) = (leave, record e { conn = conn })
next_turn reg k d now e (ok (some c), conn) =
    claimed_turn reg k d c (record e { conn = conn }) (claim_continuation c.id now conn)

-- The body of the loop of `worker`, at a time when the context is not cancelled.
unfoldable pub worker_turn : Registry → Course → Draw → ℕ → String → Engine → Turn × Engine
unfolding next_turn
worker_turn reg k d now session_id e =
    next_turn reg k d now e (next_pending_for_session session_id e.conn)

-- What a round of the loop takes from outside; `shutdown` is whether the context is cancelled when
-- the round begins.
pub record Round : Type 0 where
  pub shutdown : Bool
  pub course : Course
  pub draw : Draw
  pub now : ℕ

-- The loop of `worker`, for as many rounds as are given.
unfoldable pub worker : Registry → String → List Round → Engine → Turn × Engine
worker reg session_id [] e = (again, e)
worker reg session_id (r ∷ rounds) e =
    if r.shutdown
    then (leave, e)
    else (let (turn, e') = worker_turn reg r.course r.draw r.now session_id e in
        elim turn [ leave ↦ (leave, e') | again ↦ worker reg session_id rounds e' ])

-- The deferred end of a worker: it is deregistered, and only then the dispatcher is woken.
unfoldable pub worker_exit : String → Dispatcher → Dispatcher
worker_exit session_id d = record d {
  engine = record d.engine { awake = true };
  workers = filter (λ w. not (w == session_id)) d.workers;
}
