-- ===== src/Daemon/Methods.antt =====
-- dispatch and status of internal/daemon/rpc.go: the table of the methods.
use runtime_pulse.Prelude.{
  ℤ, pos, String, Bool, false, ◌||◌, List, [], ◌∷◌, Option, none, some, length, ◌==◌, if◌then◌else◌,
  str_append,
}
use runtime_pulse.Core.{Payload, Event, Session}
use runtime_pulse.Store.Events.{list_events}
use runtime_pulse.Store.Rules.{list_rules, remove_rule}
use runtime_pulse.Store.Sessions.{get_session, register_session, list_sessions}
use runtime_pulse.Store.Continuations.{list_continuations, insert_manual_continuation}
use runtime_pulse.Store.Watches.{list_watches}
use runtime_pulse.Store.Ingest.{IngestResult}
use runtime_pulse.Engine.{engine_ingest}
use runtime_pulse.Daemon.{
  Outside, Rpc, Reply, done, status_reply, ingest_reply, events_reply, rules_reply, session_reply,
  sessions_reply, continuation_reply, continuations_reply, watches_reply, give, refuse, stored,
  wake, ◌>>=◌, ◌>>◌,
}
use runtime_pulse.Daemon.Rules.{RuleParams, rule_add}
use runtime_pulse.Daemon.Watches.{WatchParams, watch_add, watch_remove}

-- A request with its parameters decoded; `malformed` is one whose parameters encoding/json refuses.
pub data Request : Type 0 where
  status : Request
  event_inject : String → String → Payload → Request
  events_list : String → ℤ → Request
  rule_add_request : RuleParams → Request
  rule_list : Bool → Request
  rule_remove : String → Request
  session_register : Session → Request
  session_list : Request
  continuation_list : String → Request
  continuation_run : String → String → Request
  watch_add_request : WatchParams → Request
  watch_list : Request
  watch_remove_request : String → Request
  malformed : String → Request
  unknown : String → Request

abbrev pub last_event_text : Outside → List Event → String
last_event_text o [] = ""
last_event_text o (ev ∷ evs) = str_append ev.type (str_append " @ " (o.format_time ev.timestamp))

-- Daemon.status
unfoldable pub report_status : Outside → Rpc Reply
report_status o = do
  events ← stored (list_events o.draw.codec "" (pos 1))
  rules ← stored (list_rules false o.draw.now)
  sessions ← stored list_sessions
  pending ← stored (list_continuations "pending")
  running ← stored (list_continuations "running")
  watches ← stored (list_watches o.config)
  give (
      status_reply (record {
        version = o.version;
        rules = length rules;
        sessions = length sessions;
        pending_continuations = length pending;
        running_continuations = length running;
        watches = length watches;
        last_event = last_event_text o events;
      }))

-- Engine.Ingest as a method's step.
abbrev pub ingest_event : Outside → Event → Rpc IngestResult
ingest_event o ev d = let (r, e) = engine_ingest o.draw ev d.engine in (r, record d { engine = e })

unfoldable pub inject : Outside → String → String → Payload → Rpc Reply
inject o type source payload = if type == "" then refuse "event.inject: type is required" else do
  res ←
      ingest_event o
        (record { id = ""; type = type; source = source; payload = payload; timestamp = 0 })
  give (ingest_reply res)

unfoldable pub register : Outside → Session → Rpc Reply
register o s =
    if s.session_id == "" || s.agent == ""
    then refuse "session.register: sessionId and agent are required"
    else do
      stored_session ← stored (register_session s o.draw.now)
      give (session_reply stored_session)

abbrev pub known_session : Outside → String → Option Session → Rpc (Unit {0})
known_session o id (some s) = give tt
known_session o id none = refuse (str_append "continuation.run: unknown session " (o.quote id))

unfoldable pub run_continuation : Outside → String → String → Rpc Reply
run_continuation o session_id prompt =
    if session_id == "" || prompt == ""
    then refuse "continuation.run: sessionId and prompt are required"
    else do
      found ← stored (get_session session_id)
      known_session o session_id found
      c ← stored (
          insert_manual_continuation session_id prompt o.draw.now o.new_id o.manual_rule_id
            o.manual_event_id)
      wake
      give (continuation_reply c)

-- Daemon.dispatch
unfoldable pub dispatch : Outside → Request → Rpc Reply
dispatch o status = report_status o
dispatch o (event_inject type source payload) = inject o type source payload
dispatch o (events_list type limit) = do
  l ← stored (list_events o.draw.codec type limit)
  give (events_reply l)
dispatch o (rule_add_request p) = rule_add o p
dispatch o (rule_list all) = do l ← stored (list_rules all o.draw.now); give (rules_reply l)
dispatch o (rule_remove id) = do stored (remove_rule id); give done
dispatch o (session_register s) = register o s
dispatch o session_list = do l ← stored list_sessions; give (sessions_reply l)
dispatch o (continuation_list state) = do
  l ← stored (list_continuations state)
  give (continuations_reply l)
dispatch o (continuation_run session_id prompt) = run_continuation o session_id prompt
dispatch o (watch_add_request p) = watch_add o p
dispatch o watch_list = do l ← stored (list_watches o.config); give (watches_reply l)
dispatch o (watch_remove_request id) = watch_remove id
dispatch o (malformed e) = refuse e
dispatch o (unknown method) = refuse (str_append "unknown method " (o.quote method))
