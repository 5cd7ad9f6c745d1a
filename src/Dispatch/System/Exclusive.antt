-- ===== src/Dispatch/System/Exclusive.antt =====
-- internal/dispatch/dispatcher.go: one continuation of a session runs at a time.
use runtime_pulse.Prelude.{◌≡◌, sym, ap, ◌∙◌, true, any-In, In, UniqueBy, along_ok}
use runtime_pulse.Core.{Continuation}
use runtime_pulse.Store.Sql.{exec}
use runtime_pulse.Store.Continuations.{is_running, set_result, update_continuation_result}
use runtime_pulse.Store.Continuations.Recovery.{reset_recovers}
use runtime_pulse.Store.OneShot.{WellFormed}
use runtime_pulse.Store.OneShot.History.{
  claimed, finished, recovered, Step-WellFormed, History-WellFormed,
}
use runtime_pulse.Dispatch.System.{
  resting, executing, System, move, Move, scans, looks, leaves, claims, concludes, serves, Life,
  boots, goes_on,
}
use runtime_pulse.Dispatch.System.Invariant.{Owner, Safe, runs_here}
use runtime_pulse.Dispatch.System.Steps.{
  scans-Safe, looks-Safe, leaves-Safe, the_row, concludes-Safe, claims-Safe, serves-Safe,
}

pub Move-Safe : {s s' : System} → Move s s' → Safe s → Safe s'
unfolding update_continuation_result set_result exec
Move-Safe {s} scans safe = scans-Safe s _ safe
Move-Safe {s} (looks w c i rests h) safe = looks-Safe s safe w i c rests h
Move-Safe {s} (leaves w i rests h) safe = leaves-Safe s safe w i rests
Move-Safe {s} (claims w c now got db i holds h) safe =
    claims-Safe s safe w i c now got db holds h
      (Step-WellFormed (claimed c.id now (got, h)) safe.tables)
Move-Safe {s} (concludes w c v now db i runs ended h) safe =
    along_ok
      (λ _ d. WellFormed d → Safe (record { db = d; workers = move w.session resting s.workers })) h
      (concludes-Safe s safe w i c v now runs ended)
      (Step-WellFormed (finished c.id v now (tt, h)) safe.tables)
Move-Safe {s} (serves db step client) safe = serves-Safe s db step client safe

pub Life-Safe : (s : System) → Life s → Safe s
Life-Safe _ (boots db db' now n history h) = record {
  tables = Step-WellFormed (recovered now (n, h)) (History-WellFormed history);
  workers = tt;
  backed = λ w i. absurd i;
  owned = λ d j r. absurd (
      cc (
        any-In (λ c. is_running c.state) d db'.continuations j r,
        (reset_recovers now db db' n h).1,
      ));
}
Life-Safe _ (goes_on s s' life step) = Move-Safe step (Life-Safe s life)

-- From the boot of the daemon until it is shut down, at every point of every interleaving of the
-- scans, the workers' statements and the clients' operations, a session has at most one running
-- continuation: two running rows of a session are one. It is executed by a worker of the session, and
-- no session has two workers. This supposes that no statement fails, and that the ids that clients
-- draw are new.
pub one_run_per_session :
    (s : System) (c d : Continuation)
    → Life s
    → In c s.db.continuations
    → In d s.db.continuations
    → is_running c.state ≡ true
    → is_running d.state ≡ true
    → c.session_id ≡ d.session_id
    → (c ≡ d) × Owner s.workers c × UniqueBy (λ w. w.session) s.workers
one_run_per_session s c d life i j r r' e =
    let safe = Life-Safe s life in
    let (w, k, at, x, phase, id) = safe.owned c i r in
    let (y, is, it) = runs_here s safe w k d j r' (sym e ∙ sym at) in
    let one : executing x ≡ executing y = sym phase ∙ is in
    let same : x ≡ y = cc one in
    (
      the_row s safe w k c d i j (sym id ∙ ap (λ z. z.id) same ∙ it),
      (w, k, at, x, phase, id),
      safe.workers,
    )
