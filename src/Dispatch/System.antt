-- ===== src/Dispatch/System.antt =====
-- internal/dispatch/dispatcher.go: the workers of the sessions side by side, each of them between
-- two of its statements, and the clients of the store.
pub mod Clients
pub mod Invariant
pub mod Steps
pub mod Exclusive
pub mod Refinement
use runtime_pulse.Prelude.{
  ℕ, String, ◌≡◌, Bool, true, false, not, Option, none, some, List, [], ◌∷◌, ◌++◌, map, any, filter,
  In, ok, ◌==◌, if◌then◌else◌,
}
use runtime_pulse.Core.{Continuation}
use runtime_pulse.Store.Tables.{Db}
use runtime_pulse.Store.Sql.{run}
use runtime_pulse.Store.Retention.{is_terminal}
use runtime_pulse.Store.Continuations.{
  Verdict, sessions_with_work, next_pending_for_session, claim_continuation,
  update_continuation_result, reset_running_continuations, is_running,
}
use runtime_pulse.Store.OneShot.History.{
  Step, History, ingested, claimed, finished, recovered, asked, armed, disarmed, swept_by,
  registered, marked, watched, unwatched,
}

-- Where a worker is in its loop: before it looks for work, with a continuation that it has not
-- claimed, or with one that it runs.
pub data Phase : Type 0 where
  resting : Phase
  holding executing : Continuation → Phase

pub record Worker : Type 0 where
  pub session : String
  pub phase : Phase

pub record System : Type 0 where
  pub db : Db
  pub workers : List Worker

-- The loop of `scan` over the sessions with work.
unfoldable pub spawned : List String → List Worker → List Worker
spawned [] l = l
spawned (s ∷ sessions) l =
    if any (λ w. w.session == s) l
    then spawned sessions l
    else spawned sessions (l ++ record { session = s; phase = resting } ∷ [])

abbrev pub moved : String → Phase → Worker → Worker
moved s phase w = if w.session == s then record w { phase = phase } else w

-- The worker of a session goes on.
abbrev pub move : String → Phase → List Worker → List Worker
move s phase = map (moved s phase)

-- The steps that are not a worker's or the boot's own.
unfoldable pub by_client : {db db' : Db} → Step db db' → Bool
by_client (claimed id now l) = false
by_client (finished id v now l) = false
by_client (recovered now l) = false
by_client (ingested t codec ev now ids l) = true
by_client (asked session_id prompt now id rule_id event_id h l) = true
by_client (armed r now new_id h l) = true
by_client (disarmed id l) = true
by_client (swept_by now p l) = true
by_client (registered s now l) = true
by_client (marked id st now l) = true
by_client (watched w l) = true
by_client (unwatched id l) = true

-- One step of the dispatcher, of one of its workers, or of a client, in which no statement fails.
pub data Move (s : System) : System → Type 0 where
  scans : Move s (record s { workers = spawned (sessions_with_work s.db.continuations) s.workers })
  looks :
      (w : Worker) (c : Continuation)
      → In w s.workers
      → w.phase ≡ resting
      → run (next_pending_for_session w.session) s.db ≡ ok (some c, s.db)
      → Move s (record s { workers = move w.session (holding c) s.workers })
  leaves :
      (w : Worker)
      → In w s.workers
      → w.phase ≡ resting
      → run (next_pending_for_session w.session) s.db ≡ ok (none, s.db)
      → Move s (record s { workers = filter (λ v. not (v.session == w.session)) s.workers })
  claims :
      (w : Worker) (c : Continuation) (now : ℕ) (got : Bool) (db : Db)
      → In w s.workers
      → w.phase ≡ holding c
      → run (claim_continuation c.id now) s.db ≡ ok (got, db)
      → Move s (record {
        db = db;
        workers = move w.session (if got then executing c else resting) s.workers;
      })
  concludes :
      (w : Worker) (c : Continuation) (v : Verdict) (now : ℕ) (db : Db)
      → In w s.workers
      → w.phase ≡ executing c
      → is_terminal v.state ≡ true
      → run (update_continuation_result c.id v now) s.db ≡ ok (tt, db)
      → Move s (record { db = db; workers = move w.session resting s.workers })
  serves : (db : Db) (step : Step s.db db) → by_client step ≡ true → Move s (record s { db = db })

-- A life of the daemon: it boots on tables that have some history, and moves until it is shut down.
pub data Life : System → Type 0 where
  boots :
      (db db' : Db) (now n : ℕ)
      → History db
      → run (reset_running_continuations now) db ≡ ok (n, db')
      → Life (record { db = db'; workers = [] })
  goes_on : (s s' : System) → Life s → Move s s' → Life s'

-- Several steps.
pub data Moves (s : System) : System → Type 0 where
  stays : Moves s s
  moves : (t u : System) → Moves s t → Move t u → Moves s u
