-- ===== src/Dispatch.antt =====
-- internal/dispatch: what a worker does with a claimed continuation.
pub mod Execution
pub mod Emission
pub mod Workers
pub mod System
use runtime_pulse.Prelude.{
  ℕ, ℤ, pos, zero, String, Bool, true, false, List, [], ◌∷◌, ◌++◌, map, Option, none, some, Result,
  ok, err, ◌==◌, decimal, itoa, if◌then◌else◌, str_append,
}
use runtime_pulse.Prelude.Order.{str_leb, sort_by}
use runtime_pulse.Core.{
  Payload, Event, Session, Continuation, ContinuationState, completed, failed, session_running,
  session_waiting,
}
use runtime_pulse.Store.Sql.{Sql, Conn}
use runtime_pulse.Store.Sessions.{get_session, set_session_state}
use runtime_pulse.Store.Continuations.{Verdict, update_continuation_result}
use runtime_pulse.Engine.{Engine, Draw, engine_ingest}

-- adapter.Result
pub record RunResult : Type 0 where
  pub command : String
  pub exit_code : ℤ
  pub output_summary : String
  pub duration_ms : ℕ

-- An adapter's Resume: what the agent's run gave, and an error if it could not be started.
abbrev pub Resume : Type 0
Resume = Session → String → RunResult × Option String

-- adapter.Registry
abbrev pub Registry : Type 0
Registry = List (String × Resume)

unfoldable pub adapter_for : Registry → String → Option Resume
adapter_for [] agent = none
adapter_for ((name, r) ∷ reg) agent = if name == agent then some r else adapter_for reg agent

abbrev pub join_with : String → List String → String
join_with sep [] = ""
join_with sep (s ∷ []) = s
join_with sep (s ∷ t ∷ l) = str_append s (str_append sep (join_with sep (t ∷ l)))

-- registryKeys
unfoldable pub registry_keys : Registry → String
registry_keys reg = join_with ", " (sort_by str_leb (map (λ e. e.0) reg))

-- What the switch of `execute` settles.
pub record Finding : Type 0 where
  pub verdict : Verdict
  pub duration_ms : ℕ

abbrev pub failure : String → Finding
failure summary = record {
  verdict = record { state = failed; command = ""; exit_code = none; output_summary = summary };
  duration_ms = 0;
}

abbrev pub state_of_exit : ℤ → ContinuationState
state_of_exit (pos zero) = completed
state_of_exit _ = failed

unfoldable pub finding_of_run : RunResult → Option String → Finding
finding_of_run res (some e) = record {
  verdict = record {
    state = failed;
    command = res.command;
    exit_code = some res.exit_code;
    output_summary = str_append "resume failed to start: " e;
  };
  duration_ms = res.duration_ms;
}
finding_of_run res none = record {
  verdict = record {
    state = state_of_exit res.exit_code;
    command = res.command;
    exit_code = some res.exit_code;
    output_summary = res.output_summary;
  };
  duration_ms = res.duration_ms;
}

-- The times at which `execute` reads the clock, and whether the daemon is shut down by its end.
pub record Course : Type 0 where
  pub started : ℕ
  pub stopped : ℕ
  pub recorded : ℕ
  pub cancelled : Bool

-- A store call whose error is only logged.
abbrev pub attempt : {A : Type 0} → Sql A → Conn → Conn
attempt m c = (m c).1

-- The run itself, between the two session states.
unfoldable pub supervise : Resume → Course → Session → String → Conn → Finding × Conn
unfolding finding_of_run
supervise resume k sess prompt c = (
  finding_of_run (resume sess prompt).0 (resume sess prompt).1,
  attempt (set_session_state sess.session_id session_waiting k.stopped)
      (attempt (set_session_state sess.session_id session_running k.started) c),
)

unfoldable pub with_adapter :
    Registry → Course → Session → String → Option Resume → Conn → Finding × Conn
with_adapter reg k sess prompt none c = (
  failure (
      str_append "no adapter for agent "
        (str_append sess.agent (str_append " (available: " (str_append (registry_keys reg) ")")))),
  c,
)
with_adapter reg k sess prompt (some resume) c = supervise resume k sess prompt c

unfoldable pub with_session :
    Registry → Course → Continuation → Result (Option Session) × Conn → Finding × Conn
with_session reg k c (err e, conn) = (failure (str_append "session lookup failed: " e), conn)
with_session reg k c (ok none, conn) =
    (failure (str_append "session " (str_append c.session_id " is not registered")), conn)
with_session reg k c (ok (some sess), conn) =
    with_adapter reg k sess c.prompt (adapter_for reg sess.agent) conn

abbrev exit_payload : Option ℤ → Payload
exit_payload none = []
exit_payload (some code) = ("exitCode", itoa code) ∷ []

-- The event of emitResult; the engine gives it its id and its time.
unfoldable pub result_event : Continuation → Finding → Event
result_event c f = record {
  id = "";
  type = elim f.verdict.state [ completed ↦ "continuation.completed" | _ ↦ "continuation.failed" ];
  source = if c.label == "" then c.rule_id else c.label;
  payload =
      ("continuationId", c.id)
      ∷ ("sessionId", c.session_id)
      ∷ ("durationMs", decimal f.duration_ms)
      ∷ exit_payload f.verdict.exit_code;
  timestamp = 0;
}

-- What follows the switch: nothing on shutdown, else the result is recorded and emitted.
unfoldable pub conclude : Course → Draw → Continuation → Engine → Finding × Conn → Engine
unfolding result_event
conclude k d c e (f, conn) =
    if k.cancelled
    then record e { conn = conn }
    else (engine_ingest d (result_event c f)
        (record e { conn = attempt (update_continuation_result c.id f.verdict k.recorded) conn })).1

-- Dispatcher.execute
unfoldable pub execute : Registry → Course → Draw → Continuation → Engine → Engine
unfolding with_session with_adapter supervise conclude
execute reg k d c e = conclude k d c e (with_session reg k c (get_session c.session_id e.conn))
