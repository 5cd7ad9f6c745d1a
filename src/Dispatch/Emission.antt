-- ===== src/Dispatch/Emission.antt =====
-- emitResult of internal/dispatch/dispatcher.go: the event that tells of a run.
use runtime_pulse.Prelude.{
  ℕ, String, ◌≡◌, ◌↔◌, refl, sym, subst, ◌∙◌, Bool, true, false, Option, none, some, List, [], ◌∷◌,
  map, any, ok, ◌==◌, decimal, itoa, if◌then◌else◌, Option-cases, inl, inr, ◌⊎◌, eq_iff,
}
use runtime_pulse.Bus.{Bus, publish}
use runtime_pulse.Core.{
  Payload, Event, Session, Continuation, ContinuationState, pending, running, completed, failed,
}
use runtime_pulse.Store.Tables.{Db}
use runtime_pulse.Store.Sql.{Conn, healthy, exec}
use runtime_pulse.Store.Sessions.{find_session, get_session}
use runtime_pulse.Store.Continuations.{result_row}
use runtime_pulse.Engine.{Engine, Draw, normalized}
use runtime_pulse.Engine.Order.{engine_delivers}
use runtime_pulse.Dispatch.{
  RunResult, Resume, Registry, adapter_for, Finding, finding_of_run, Course, supervise,
  with_adapter, with_session, result_event, conclude, execute,
}
use runtime_pulse.Dispatch.Execution.{
  Succeeds, with_session-completed, with_session-rows, conclude_live,
}

-- What the agent's run gave, if the session is registered and its agent has an adapter.
abbrev pub run_by : Registry → String → Session → Option RunResult
run_by reg prompt sess = elim (adapter_for reg sess.agent) [
  | none ↦ none
  | some resume ↦ some (resume sess prompt).0
]

abbrev pub run_of : Registry → String → Option Session → Option RunResult
run_of reg prompt none = none
run_of reg prompt (some sess) = run_by reg prompt sess

abbrev pub told : Option RunResult → Payload
told none = ("durationMs", "0") ∷ []
told (some res) = ("durationMs", decimal res.duration_ms) ∷ ("exitCode", itoa res.exit_code) ∷ []

-- The event tells what became of the continuation.
pub record Announces (reg : Registry) (c : Continuation) (sessions : List Session) (ev : Event)
    : Type 0 where
  pub success : (ev.type ≡ "continuation.completed") ↔ Succeeds reg c sessions
  pub failure : (ev.type ≡ "continuation.failed") ↔ (Succeeds reg c sessions → ⊥)
  pub source : ev.source ≡ (if c.label == "" then c.rule_id else c.label)
  pub payload :
      ev.payload
      ≡ ("continuationId", c.id)
        ∷ ("sessionId", c.session_id)
        ∷ told (run_of reg c.prompt (find_session c.session_id sessions))

adapter-told :
    (reg : Registry) (k : Course) (sess : Session) (c : Continuation) (a : Option Resume)
    (conn : Conn)
    → (result_event c (with_adapter reg k sess c.prompt a conn).0).payload
      ≡ ("continuationId", c.id)
        ∷ ("sessionId", c.session_id)
        ∷ told (elim a [ none ↦ none | some resume ↦ some (resume sess c.prompt).0 ])
unfolding result_event with_adapter supervise finding_of_run decimal
adapter-told reg k sess c none conn = refl
adapter-told reg k sess c (some resume) conn = elim (Option-cases (resume sess c.prompt).1) [
  | inl e ↦ rw e refl
  | inr (x, e) ↦ rw e refl
]

session-told :
    (reg : Registry) (k : Course) (c : Continuation) (o : Option Session) (conn : Conn)
    → (result_event c (with_session reg k c (ok o, conn)).0).payload
      ≡ ("continuationId", c.id) ∷ ("sessionId", c.session_id) ∷ told (run_of reg c.prompt o)
unfolding result_event with_session decimal
session-told reg k c none conn = refl
session-told reg k c (some s) conn = adapter-told reg k s c (adapter_for reg s.agent) conn

apart : ◌≡◌ {A = String} "continuation.completed" "continuation.failed" → ⊥
apart h =
    let t : ("continuation.completed" == "continuation.failed") ≡ true =
      (eq_iff "continuation.completed" "continuation.failed").1 h in
    absurd (cc t)

module _ (c : Continuation) (f : Finding) where
  typed_completed : f.verdict.state ≡ completed → (result_event c f).type ≡ "continuation.completed"
  unfolding result_event
  typed_completed h = rw h refl

  typed_failed : (f.verdict.state ≡ completed → ⊥) → (result_event c f).type ≡ "continuation.failed"
  unfolding result_event
  typed_failed h = other f.verdict.state h
    where
      other :
          (s : ContinuationState)
          → (s ≡ completed → ⊥)
          → ◌≡◌ {A = String}
              (elim s [ completed ↦ "continuation.completed" | _ ↦ "continuation.failed" ])
              "continuation.failed"
      other completed h = absurd (h refl)
      other pending h = refl
      other running h = refl
      other failed h = refl

  is_completed : (f.verdict.state ≡ completed) ⊎ (f.verdict.state ≡ completed → ⊥)
  is_completed = decided f.verdict.state
    where
      decided : (s : ContinuationState) → (s ≡ completed) ⊎ (s ≡ completed → ⊥)
      decided completed = inl refl
      decided pending = inr (λ e. absurd (cc e))
      decided running = inr (λ e. absurd (cc e))
      decided failed = inr (λ e. absurd (cc e))

  result_event-success :
      ((result_event c f).type ≡ "continuation.completed") ↔ (f.verdict.state ≡ completed)
  result_event-success = elim is_completed [
    | inl h ↦ (λ e. h, λ h. typed_completed h)
    | inr h ↦ (λ e. absurd (apart (sym e ∙ typed_failed h)), λ h. typed_completed h)
  ]

  result_event-failure :
      ((result_event c f).type ≡ "continuation.failed") ↔ (f.verdict.state ≡ completed → ⊥)
  result_event-failure = (λ e h. apart (sym (typed_completed h) ∙ e), λ h. typed_failed h)

result_event-Announces :
    (reg : Registry) (k : Course) (c : Continuation) (sessions : List Session) (conn : Conn)
    (id : String) (now : ℕ)
    → let f = (with_session reg k c (ok (find_session c.session_id sessions), conn)).0 in
      Announces reg c sessions (record (result_event c f) { id = id; timestamp = now })
unfolding result_event
result_event-Announces reg k c sessions conn id now =
    let o = find_session c.session_id sessions in
    let f : Finding = (with_session reg k c (ok o, conn)).0 in
    let ends = with_session-completed reg k c o conn in
    let (good, good') = result_event-success c f in
    let (bad, bad') = result_event-failure c f in
    record {
      success = (λ e. ends.0 (good e), λ h. good' (ends.1 h));
      failure = (λ e h. bad e (ends.1 h), λ h. bad' (λ e. h (ends.0 e)));
      source = refl;
      payload = session-told reg k c o conn;
    }

-- An execution that is not cut short, on a healthy connection, publishes one event. It is named
-- continuation.completed if the run succeeded (the session is registered, its agent has an adapter
-- and could be started, and ended with exit code 0), and continuation.failed otherwise; it comes
-- from the label of the continuation, or from its rule if it has none; it names the continuation and
-- the session, and it gives the duration and the exit code of the run, if there was one. Its id is
-- the one that was drawn for it, which is supposed not to be empty, its time is that of the clock,
-- and the table has an event of that id. This supposes that encoding/json encodes every payload, a
-- map of texts.
pub execution_emits :
    (reg : Registry) (k : Course) (d : Draw) (c : Continuation) (db : Db) (bus : Bus) (awake : Bool)
    → k.cancelled ≡ false
    → (d.event_id == "") ≡ false
    → ((p : Payload) → (text : String) × (d.codec.marshal p ≡ ok text))
    → let e' = execute reg k d c (record { conn = healthy db; bus = bus; awake = awake }) in
      (ev : Event) × Announces reg c db.sessions ev
      × (ev.id ≡ d.event_id)
      × (ev.timestamp ≡ d.now)
      × (e'.bus ≡ publish bus ev)
      × (any (λ row. row.id == d.event_id) e'.conn.db.events ≡ true)
unfolding execute get_session exec result_event normalized
execution_emits reg k d c db bus awake live drawn encodes =
    let before : Engine = record { conn = healthy db; bus = bus; awake = awake } in
    let o = find_session c.session_id db.sessions in
    let f : Finding = (with_session reg k c (ok o, healthy db)).0 in
    let ev : Event = record (result_event c f) { id = d.event_id; timestamp = d.now } in
    let (sessions, left) = with_session-rows reg k c o db in
    let rows = map (result_row c.id f.verdict k.recorded) db.continuations in
    let Emits = λ (e' : Engine).
      (e'.bus ≡ publish bus ev) × (any (λ row. row.id == d.event_id) e'.conn.db.events ≡ true) in
    let (text, encoded) = encodes (result_event c f).payload in
    let there : Emits (conclude k d c before (f, (with_session reg k c (ok o, healthy db)).1)) =
      subst (λ conn. Emits (conclude k d c before (f, conn))) (sym left)
        (subst Emits (sym (conclude_live k d c before f (record db { sessions = sessions }) live)) (
          engine_delivers d (result_event c f)
            (record db { sessions = sessions; continuations = rows }) bus awake text drawn
            encoded)) in
    (
      ev,
      result_event-Announces reg k c db.sessions (healthy db) d.event_id d.now,
      refl,
      refl,
      there.0,
      there.1,
    )
