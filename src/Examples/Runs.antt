-- ===== src/Examples/Runs.antt =====
-- A claimed continuation is executed; the dispatcher looks for work.
use Prim.Native.String.{len}
use runtime_pulse.Prelude.{some, ◌≤◌, ◌≡◌, refl, pos, true, false, none, List, [], ◌∷◌, any, ◌==◌}
use runtime_pulse.Core.{Event, Session, Continuation, running}
use runtime_pulse.Bus.{new_bus, publish}
use runtime_pulse.Store.Tables.{Db}
use runtime_pulse.Store.Sql.{healthy}
use runtime_pulse.Engine.{Engine}
use runtime_pulse.Adapter.{Machine, succeeded, codex_resume, agents}
use runtime_pulse.Adapter.Summary.{agent_summary_bounds}
use runtime_pulse.Dispatch.{adapter_for, Registry, RunResult, Course, execute}
use runtime_pulse.Dispatch.Execution.{interruption_leaves_work}
use runtime_pulse.Dispatch.Workers.{Dispatcher, scan}
use runtime_pulse.Dispatch.Workers.Sessions.{UniqueWorkers, scan_covers}
use runtime_pulse.Dispatch.Emission.{Announces, execution_emits}
use runtime_pulse.Examples.{world, woken, claude}
use runtime_pulse.Examples.Live.{draws}

abbrev success : RunResult
success = record {
  command = "claude -p";
  exit_code = pos 0;
  output_summary = "done";
  duration_ms = 12;
}

abbrev pub adapters : Registry
adapters = ("claude", λ s prompt. (success, none)) ∷ []

abbrev pub course : Course
course = record { started = 6; stopped = 7; recorded = 8; cancelled = false }

abbrev claimed_one : Continuation
claimed_one = record woken { state = running }

abbrev claimed_world : Db
claimed_world = record world { continuations = claimed_one ∷ [] }

abbrev before : Engine
before = record { conn = healthy claimed_world; bus = new_bus; awake = false }

execution_emits_example :
    let e' = execute adapters course draws claimed_one before in
    (ev : Event) × Announces adapters claimed_one claimed_world.sessions ev
    × (ev.id ≡ "evt-2")
    × (ev.timestamp ≡ 5)
    × (e'.bus ≡ publish new_bus ev)
    × (any (λ row. row.id == "evt-2") e'.conn.db.events ≡ true)
execution_emits_example =
    execution_emits adapters course draws claimed_one claimed_world new_bus false refl refl
      (λ p. ("{}", refl))

interruption_leaves_work_example :
    (sessions : List Session) × (execute adapters
        (record course { cancelled = true })
        draws
        claimed_one
        before
      ≡ record before { conn = healthy (record claimed_world { sessions = sessions }) })
interruption_leaves_work_example =
    interruption_leaves_work adapters (record course { cancelled = true }) draws claimed_one
      claimed_world new_bus false refl

abbrev idle : Dispatcher
idle = record {
  engine = record {
    conn = healthy (record world { continuations = woken ∷ [] });
    bus = new_bus;
    awake = false;
  };
  workers = "s2" ∷ [];
}

scan_covers_example :
    (any (λ w. w == "s1") (scan idle).workers ≡ true)
    × UniqueWorkers (scan idle).workers
    × ((scan idle).engine.conn ≡ idle.engine.conn)
scan_covers_example =
    scan_covers idle (record world { continuations = woken ∷ [] }) "s1" refl (refl, tt) refl

-- A machine on which every command prints the same.
abbrev machine : Machine
machine = record {
  trim = λ s. s;
  result_field = λ s. none;
  getenv = λ s. "";
  look_path = λ s. true;
  run =
      λ bin args dir. record { stdout = "done"; stderr = ""; duration_ms = 3; ending = succeeded };
}

codex_found : adapter_for (agents machine) "codex" ≡ some (codex_resume machine)
unfolding adapter_for agents
codex_found = refl

agent_summary_bounds_example : len (codex_resume machine claude "go on").0.output_summary ≤ 531
agent_summary_bounds_example =
    agent_summary_bounds machine "codex" (codex_resume machine) claude "go on" codex_found
