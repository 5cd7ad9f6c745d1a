-- ===== src/Daemon.antt =====
-- internal/daemon/rpc.go and the retention sweep of internal/daemon/daemon.go: the methods of the
-- daemon over its parts.
pub mod Methods
pub mod Rules
pub mod Watches
pub mod Checks
pub mod Manual
pub mod Added
use runtime_pulse.Prelude.{
  ℕ, ℤ, String, Bool, true, List, [], ◌∷◌, Option, none, some, Result, ok, err, str_append,
}
use runtime_pulse.Core.{Payload, Event, Rule, Session, Continuation}
use runtime_pulse.Watch.{Watch}
use runtime_pulse.Watch.Manager.{Manager}
use runtime_pulse.Store.Sql.{Sql, Conn}
use runtime_pulse.Store.Ingest.{IngestResult}
use runtime_pulse.Store.Watches.{ConfigCodec}
use runtime_pulse.Store.Retention.{RetentionPolicy, sweep}
use runtime_pulse.Engine.{Engine, Draw}

pub record Daemon : Type 0 where
  pub engine : Engine
  pub watches : Manager

-- What a request takes from outside: the libraries, the machine, the time, and the ids that are
-- drawn. `quote` is fmt's %q; the parsers return the text of their error.
pub record Outside : Type 0 where
  pub draw : Draw
  pub config : ConfigCodec
  pub quote : String → String
  pub parse_duration : String → Result ℤ
  pub parse_time : String → Result ℕ
  pub format_time : ℕ → String
  pub docker_available : Option String
  pub is_git_repository : String → Bool
  pub version : String
  pub new_id : String
  pub manual_rule_id : String
  pub manual_event_id : String

-- What `status` reports.
pub record Status : Type 0 where
  pub version : String
  pub rules : ℕ
  pub sessions : ℕ
  pub pending_continuations : ℕ
  pub running_continuations : ℕ
  pub watches : ℕ
  pub last_event : String

-- The value of the field `result` of a response.
pub data Reply : Type 0 where
  done : Reply
  status_reply : Status → Reply
  ingest_reply : IngestResult → Reply
  events_reply : List Event → Reply
  rule_reply : Rule → Reply
  rules_reply : List Rule → Reply
  session_reply : Session → Reply
  sessions_reply : List Session → Reply
  continuation_reply : Continuation → Reply
  continuations_reply : List Continuation → Reply
  watch_reply : Watch → Reply
  watches_reply : List Watch → Reply

abbrev pub Rpc : Type 0 → Type 0
Rpc A = Daemon → Result A × Daemon

module _ {A : Type 0} where
  abbrev pub give : A → Rpc A
  give a d = (ok a, d)

  abbrev pub refuse : String → Rpc A
  refuse e d = (err e, d)

  -- A store operation.
  abbrev pub stored : Sql A → Rpc A
  stored m d =
      let (r, c) = m d.engine.conn in (r, record d { engine = record d.engine { conn = c } })

module _ {A B : Type 0} where
  abbrev pub proceed : Result A → (A → Rpc B) → Rpc B
  proceed (ok a) f d = f a d
  proceed (err e) f d = (err e, d)

  infixl 5 ◌>>=◌ ◌>>◌
  abbrev pub ◌>>=◌ : Rpc A → (A → Rpc B) → Rpc B
  ◌>>=◌ m f d = let (r, d') = m d in proceed r f d'

  abbrev pub ◌>>◌ : Rpc A → Rpc B → Rpc B
  m >> n = m >>= λ _. n

-- Dispatcher.Wake
abbrev pub wake : Rpc (Unit {0})
wake d = (ok tt, record d { engine = record d.engine { awake = true } })

-- The windows of the daemon, in nanoseconds: a week for sessions, thirty days for the rest.
abbrev pub retention : RetentionPolicy
retention = record {
  session_idle = 604800000000000;
  continuation_age = 2592000000000000;
  event_age = 2592000000000000;
}

-- sweepOnce: an error is only logged.
unfoldable pub sweep_once : ℕ → Daemon → Daemon
sweep_once now d = record d {
  engine = record d.engine { conn = (sweep now retention d.engine.conn).1 };
}
