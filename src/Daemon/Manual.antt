-- ===== src/Daemon/Manual.antt =====
-- continuation.run of internal/daemon/rpc.go: a manual wake-up.
use runtime_pulse.Prelude.{
  String, ◌≡◌, sym, ap, Bool, true, ◌||◌, some, [], ◌∷◌, ◌++◌, any, Result, ok, none, Option-cases,
  ◌==◌, inl, inr, Bool-cases,
}
use runtime_pulse.Core.{Session, Continuation, pending}
use runtime_pulse.Bus.{Bus}
use runtime_pulse.Watch.Manager.{Manager}
use runtime_pulse.Store.Tables.{Db}
use runtime_pulse.Store.Sql.{healthy, exec}
use runtime_pulse.Store.Ingest.{clashes}
use runtime_pulse.Store.Sessions.{find_session, get_session}
use runtime_pulse.Store.Continuations.{add_continuation, insert_manual_continuation}
use runtime_pulse.Daemon.{Daemon, Outside, Reply, continuation_reply}
use runtime_pulse.Daemon.Methods.{run_continuation}

-- The continuation that the request asks for, as the table is to hold it: pending, of the session and
-- with the prompt of the request, under the ids that were drawn.
abbrev pub asked_for : Outside → String → String → Continuation
asked_for o session_id prompt = record {
  id = o.new_id;
  rule_id = o.manual_rule_id;
  event_id = o.manual_event_id;
  session_id = session_id;
  prompt = prompt;
  label = "manual";
  state = pending;
  command = "";
  exit_code = none;
  output_summary = "";
  created_at = o.draw.now;
  updated_at = o.draw.now;
}

-- A request of continuation.run that succeeds on a healthy connection names a registered session;
-- it adds one pending continuation of that session with the prompt, returns it, and wakes the
-- dispatcher, and nothing else changes.
pub run_continuation_queues :
    (o : Outside) (session_id prompt : String) (db : Db) (bus : Bus) (awake : Bool) (m : Manager)
    (reply : Reply) (d' : Daemon)
    → run_continuation o session_id prompt
        (record { engine = record { conn = healthy db; bus = bus; awake = awake }; watches = m })
      ≡ (ok reply, d')
    → ((sess : Session) × (find_session session_id db.sessions ≡ some sess))
      × (reply ≡ continuation_reply (asked_for o session_id prompt))
      × (d' ≡ record {
        engine = record {
          conn = healthy (record db {
            continuations = db.continuations ++ asked_for o session_id prompt ∷ [];
          });
          bus = bus;
          awake = true;
        };
        watches = m;
      })
unfolding run_continuation get_session insert_manual_continuation add_continuation exec
run_continuation_queues o session_id prompt db bus awake m reply d' h =
    elim (Bool-cases (session_id == "" || prompt == "")) [
      | inl e ↦ absurd (cc (rw e at h))
      | inr e ↦ elim (Option-cases (find_session session_id db.sessions)) [
        | inl absent ↦ absurd (cc (rw (e, absent) at h))
        | inr (sess, found) ↦
            elim (Bool-cases (any (clashes (asked_for o session_id prompt)) db.continuations)) [
              | inl clash ↦ absurd (cc (rw (e, found, clash) at h))
              | inr new ↦
                  let c = asked_for o session_id prompt in
                  let after : Daemon = record {
                    engine = record {
                      conn = healthy (record db { continuations = db.continuations ++ c ∷ [] });
                      bus = bus;
                      awake = true;
                    };
                    watches = m;
                  } in
                  let left : ◌≡◌ {A = Result Reply × Daemon} (ok (continuation_reply c), after)
                      (ok reply, d') =
                    rw (e, found, new) at h in
                  ((sess, found), cc, sym (ap (λ r. r.1) left))
            ]
      ]
    ]
