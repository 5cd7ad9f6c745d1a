-- ===== src/Tools.antt =====
-- internal/mcpserver/tools.go: the tools that an agent calls, over the client of the daemon.
pub mod Waiting
use Prim.Native.Nat.{◌%◌, ◌^◌}
use runtime_pulse.Prelude.{
  ℕ, ℤ, pos, negsuc, zero, suc, ◌-◌, ◌*◌, String, Bool, true, false, Option, none, some, List, [],
  Result, ok, err, ◌&&◌, ◌||◌, ◌==◌, ltb, if◌then◌else◌,
}
use runtime_pulse.Core.{Event}
use runtime_pulse.Daemon.{Daemon, Outside, Rpc, Reply, done, events_reply, rule_reply, watch_reply}
use runtime_pulse.Daemon.Rules.{RuleParams}
use runtime_pulse.Daemon.Watches.{WatchParams}
use runtime_pulse.Daemon.Methods.{
  Request, events_list, rule_add_request, rule_remove, watch_add_request,
}
use runtime_pulse.Client.{Transport, call}
use runtime_pulse.Client.Follow.{Line, follow}

pub record WatchOutput : Type 0 where
  pub id : String
  pub type : String
  pub target : String

-- The fields of the result that the output has; a field that is missing is empty.
abbrev watch_output : Option Reply → WatchOutput
watch_output (some (watch_reply w)) = record { id = w.id; type = w.type; target = w.target }
watch_output _ = record { id = ""; type = ""; target = "" }

abbrev answer :
    {A : Type 0} → (Option Reply → A) → Result (Option Reply) × Daemon → Result A × Daemon
answer f (ok reply, d) = (ok (f reply), d)
answer f (err e, d) = (err e, d)

-- The parameters of the calls are the inputs of the tools, field by field.
unfoldable pub create_watch : Transport → Outside → WatchParams → Rpc WatchOutput
create_watch t o p d = answer watch_output (call t o (watch_add_request p) d)

abbrev events_output : Option Reply → List Event
events_output (some (events_reply l)) = l
events_output _ = []

unfoldable pub get_events : Transport → Outside → String → ℤ → Rpc (List Event)
get_events t o type limit d = answer events_output (call t o (events_list type limit) d)

unfoldable pub cancel_rule : Transport → Outside → String → Rpc (Unit {0})
cancel_rule t o id d = answer (λ r. tt) (call t o (rule_remove id) d)

pub record RuleOutput : Type 0 where
  pub id : String
  pub session_id : String

abbrev rule_output : Option Reply → RuleOutput
rule_output (some (rule_reply r)) = record { id = r.id; session_id = r.session_id }
rule_output _ = record { id = ""; session_id = "" }

unfoldable pub create_rule : Transport → Outside → RuleParams → Rpc RuleOutput
create_rule t o p d = answer rule_output (call t o (rule_add_request p) d)

pub record WaitForEventInput : Type 0 where
  pub event_type : String
  pub source : String
  pub timeout_seconds : ℤ

pub record WaitOutput : Type 0 where
  pub timed_out : Bool
  pub event : Option Event

-- A number of 64 bits with its sign.
abbrev signed : ℕ → ℤ
signed n = if ltb n (2 ^ 63) then pos n else negsuc (2 ^ 64 - n - 1)

-- The time to wait, in nanoseconds; the product wraps around.
unfoldable pub wait_timeout : ℤ → ℤ
wait_timeout (pos zero) = pos 300000000000
wait_timeout (negsuc n) = pos 300000000000
wait_timeout (pos (suc n)) = signed (suc n * 1000000000 % 2 ^ 64)

abbrev pub awaited : WaitForEventInput → Event → Bool
awaited i ev = ev.type == i.event_type && (i.source == "" || ev.source == i.source)

-- The function that Follow calls, on the event that was found.
abbrev pub on_event : WaitForEventInput → Event → Option Event → Option Event
on_event i ev (some match) = some match
on_event i ev none = if awaited i ev then some ev else none

abbrev pub is_found : Option Event → Bool
is_found none = false
is_found (some ev) = true

abbrev pub wait_output : Result (Unit {0}) × Option Event → Result WaitOutput
wait_output (err e, found) = err e
wait_output (ok _, none) = ok (record { timed_out = true; event = none })
wait_output (ok _, some ev) = ok (record { timed_out = false; event = some ev })

unfoldable pub wait_for_event : WaitForEventInput → Line → Result WaitOutput
wait_for_event i line = wait_output (follow (on_event i) is_found line none)
