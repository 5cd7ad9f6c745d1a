-- ===== src/Examples/Lives.antt =====
-- A life of the daemon on the small world: it boots, its worker runs, and its queue is drained.
use runtime_pulse.Prelude.{
  ◌≡◌, refl, true, false, List, [], ◌∷◌, any, inl, UniqueBy, ltb→lt, length,
}
use runtime_pulse.Prelude.Order.{sort_by}
use runtime_pulse.Core.{Continuation, running}
use runtime_pulse.Bus.{new_bus}
use runtime_pulse.Store.Tables.{Db}
use runtime_pulse.Store.Sql.{healthy, exec}
use runtime_pulse.Store.Ingest.Budget.{work}
use runtime_pulse.Store.Continuations.{
  reset_running_continuations, reset_rows, sessions_with_work, distinct, next_pending_for_session,
  oldest_pending, claim_continuation, claim_rows, waits_in,
}
use runtime_pulse.Dispatch.Workers.{leave, Round, worker, worker_turn}
use runtime_pulse.Dispatch.Workers.Drain.{worker_drains}
use runtime_pulse.Dispatch.System.{
  Worker, resting, holding, executing, System, spawned, Move, scans, looks, claims, Life, boots,
  goes_on, Moves,
}
use runtime_pulse.Dispatch.System.Invariant.{Owner}
use runtime_pulse.Dispatch.System.Exclusive.{one_run_per_session}
use runtime_pulse.Dispatch.System.Refinement.{Ended, worker_turn_refines}
use runtime_pulse.Examples.{woken}
use runtime_pulse.Examples.Outbox.{delivered}
use runtime_pulse.Examples.Live.{draws}
use runtime_pulse.Examples.Runs.{adapters, course}
use runtime_pulse.Examples.Rules.{history}

abbrev rester : Worker
rester = record { session = "s1"; phase = resting }

abbrev booted : System
booted = record { db = delivered; workers = [] }

abbrev scanned : System
scanned = record { db = delivered; workers = rester ∷ [] }

abbrev holder : Worker
holder = record { session = "s1"; phase = holding woken }

abbrev looking : System
looking = record { db = delivered; workers = holder ∷ [] }

abbrev claimed_row : Continuation
claimed_row = record woken { state = running; updated_at = 6 }

abbrev busy : System
busy = record {
  db = record delivered { continuations = claimed_row ∷ [] };
  workers = record { session = "s1"; phase = executing woken } ∷ [];
}

Life-booted : Life booted
unfolding reset_running_continuations reset_rows exec
Life-booted = boots delivered delivered 6 0 history refl

Move-scanned : Move booted scanned
unfolding spawned sessions_with_work distinct sort_by
Move-scanned = scans

Move-looking : Move scanned looking
unfolding next_pending_for_session oldest_pending exec sort_by
Move-looking = looks rester woken (inl refl) refl refl

Move-busy : Move looking busy
unfolding claim_continuation claim_rows exec
Move-busy =
    claims holder woken 6 true (record delivered { continuations = claimed_row ∷ [] }) (inl refl)
      refl refl

Life-busy : Life busy
Life-busy =
    goes_on looking busy
      (goes_on scanned looking (goes_on booted scanned Life-booted Move-scanned) Move-looking)
      Move-busy

one_run_per_session_example :
    (claimed_row ≡ claimed_row)
    × Owner busy.workers claimed_row
    × UniqueBy (λ w. w.session) busy.workers
one_run_per_session_example =
    one_run_per_session busy claimed_row claimed_row Life-busy (inl refl) (inl refl) refl refl refl

worker_turn_refines_example :
    let (turn, e) =
      worker_turn adapters course draws 6 "s1"
        (record { conn = healthy delivered; bus = new_bus; awake = false }) in
    (t : System) × Moves scanned t × (e.conn ≡ healthy t.db) × Ended rester turn t.workers
worker_turn_refines_example =
    worker_turn_refines adapters course draws 6 scanned rester new_bus false refl (inl refl) refl

abbrev round : Round
round = record { shutdown = false; course = course; draw = draws; now = 6 }

abbrev rounds : List Round
rounds = round ∷ round ∷ []

worker_drains_example :
    let (turn, e) =
      worker adapters "s1" rounds
        (record { conn = healthy delivered; bus = new_bus; awake = false }) in
    (turn ≡ leave)
    × (after : Db) × (e.conn ≡ healthy after)
    × (any (waits_in "s1") after.continuations ≡ false)
worker_drains_example =
    worker_drains adapters "s1" rounds delivered new_bus false (refl, tt)
      (ltb→lt (work delivered) (length rounds) refl) (refl, (refl, tt))
