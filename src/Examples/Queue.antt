-- ===== src/Examples/Queue.antt =====
-- Claims, the order of a session's queue, recovery and retention on small tables.
use runtime_pulse.Prelude.{
  String, arith, ◌≡◌, refl, true, false, some, none, [], ◌∷◌, any, filter, length, In, ok,
}
use runtime_pulse.Prelude.Order.{sort_by}
use runtime_pulse.Core.{Continuation, running, completed}
use runtime_pulse.Store.Tables.{Db}
use runtime_pulse.Store.Sql.{run, exec, transaction, finish}
use runtime_pulse.Store.Sql.Faults.{IsAtomic}
use runtime_pulse.Store.Continuations.{
  claimable, claim_continuation, claim_rows, fifo_leb, waits_in, is_running,
  next_pending_for_session, oldest_pending, reset_running_continuations, reset_rows,
}
use runtime_pulse.Store.Continuations.Claim.{claim_exclusive}
use runtime_pulse.Store.Continuations.Fifo.{next_pending_first}
use runtime_pulse.Store.Continuations.Recovery.{is_unfinished, reset_recovers}
use runtime_pulse.Store.Rules.{armed}
use runtime_pulse.Store.Ingest.{unexpired}
use runtime_pulse.Store.Events.{delete_old_events}
use runtime_pulse.Store.Retention.{
  RetentionPolicy, SweepResult, sweep, session_expired, referenced, delete_idle_sessions,
  delete_old_continuations,
}
use runtime_pulse.Store.Retention.Sweep.{Swept, sweep-Swept, sweep-IsAtomic}
use runtime_pulse.Examples.{world, woken, claude}

abbrev older : Continuation
older = record woken { id = "b"; event_id = "evt-0"; created_at = 3 }

-- Two continuations wait, the older in the second row.
abbrev queued : Db
queued = record world { continuations = woken ∷ older ∷ [] }

abbrev claimed_db : Db
claimed_db = record world {
  continuations = woken ∷ record older { state = running; updated_at = 7 } ∷ [];
}

claim : run (claim_continuation "b" 7) queued ≡ ok (true, claimed_db)
unfolding claim_continuation claim_rows exec
claim = refl

claim_exclusive_example :
    (true ≡ any (claimable "b") queued.continuations)
    × (run (claim_continuation "b" 8) claimed_db ≡ ok (false, claimed_db))
claim_exclusive_example = claim_exclusive "b" 7 8 queued claimed_db true (refl, (refl, tt)) claim

taken : run (next_pending_for_session "s1") queued ≡ ok (some older, queued)
unfolding next_pending_for_session oldest_pending fifo_leb exec sort_by
taken = refl

next_pending_first_example :
    (queued ≡ queued)
    × ((c : Continuation)
        → some older ≡ some c
        → In c queued.continuations
          × (waits_in "s1" c ≡ true)
          × ((d : Continuation)
              → In d queued.continuations
              → waits_in "s1" d ≡ true
              → fifo_leb c d ≡ true))
    × (some older ≡ none → (d : Continuation) → In d queued.continuations → waits_in "s1" d ≡ false)
next_pending_first_example = next_pending_first "s1" queued queued (some older) taken

abbrev recovered_db : Db
recovered_db = record world { continuations = woken ∷ record older { updated_at = 9 } ∷ [] }

reset : run (reset_running_continuations 9) claimed_db ≡ ok (1, recovered_db)
unfolding reset_running_continuations reset_rows exec
reset = refl

reset_recovers_example :
    (1 ≡ length (filter (λ c. is_running c.state) claimed_db.continuations))
    × (any (λ c. is_running c.state) recovered_db.continuations ≡ false)
    × ((session_id : String)
        → length (filter (waits_in session_id) recovered_db.continuations)
          ≡ length (filter (is_unfinished session_id) claimed_db.continuations))
    × ((c : Continuation)
        → is_running c.state ≡ false
        → In c claimed_db.continuations
        → In c recovered_db.continuations)
reset_recovers_example = reset_recovers 9 claimed_db recovered_db 1 reset

abbrev policy : RetentionPolicy
policy = record { session_idle = 10; continuation_age = 20; event_age = 30 }

-- A session that no rule names any more, and a continuation that ended long ago.
abbrev stale : Db
stale = record world {
  sessions = claude ∷ record claude { session_id = "s2" } ∷ [];
  continuations = record woken { state = completed } ∷ older ∷ [];
}

abbrev clean : Db
clean = record world { continuations = older ∷ [] }

abbrev one_each : SweepResult
one_each = record { sessions = 1; continuations = 1; events = 0 }

gone : run (sweep 50 policy) stale ≡ ok (one_each, clean)
unfolding sweep transaction exec finish delete_idle_sessions delete_old_continuations
    delete_old_events session_expired referenced armed unexpired
gone = refl

sweep-Swept_example : Swept 50 policy stale one_each clean
sweep-Swept_example = sweep-Swept 50 policy stale clean one_each (omega arith, tt) gone

sweep-IsAtomic_example : IsAtomic (sweep 50 policy)
sweep-IsAtomic_example = sweep-IsAtomic 50 policy
