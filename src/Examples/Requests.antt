-- ===== src/Examples/Requests.antt =====
-- A workflow text and two requests.
use runtime_pulse.Prelude.{
  String, ◌≡◌, ◌⊎◌, refl, pos, true, false, none, some, [], ◌∷◌, ◌++◌, All, ok, err, ltb, length,
  ◌==◌,
}
use runtime_pulse.Core.{Session, validate_prompt_template}
use runtime_pulse.Bus.{new_bus}
use runtime_pulse.Watch.Manager.{new_manager}
use runtime_pulse.Store.Sql.{healthy, exec}
use runtime_pulse.Store.Sessions.{find_session, get_session}
use runtime_pulse.Store.Continuations.{insert_manual_continuation, add_continuation}
use runtime_pulse.Workflow.{
  Workflow, Reader, parse, validated, check_steps, step_fault, labelled, rules,
}
use runtime_pulse.Workflow.Compiled.{IsComplete, UniqueLabels, parse-IsComplete}
use runtime_pulse.Daemon.{Daemon, Outside, continuation_reply}
use runtime_pulse.Daemon.Rules.{RuleParams, rule_add}
use runtime_pulse.Daemon.Methods.{run_continuation}
use runtime_pulse.Daemon.Checks.{IsSound, rule_add-IsSound}
use runtime_pulse.Daemon.Manual.{asked_for, run_continuation_queues}
use runtime_pulse.Examples.{plain, world}
use runtime_pulse.Examples.Live.{draws}

abbrev pub deploy : Workflow
deploy = record {
  session = "s1";
  agent = "claude";
  repo = "";
  steps =
      record {
        label = "build";
        on = record { type = "http.available"; source = "" };
        prompt = "build it";
      }
      ∷ record {
        label = "test";
        on = record { type = "continuation.completed"; source = "build" };
        prompt = "test it";
      }
      ∷ [];
}

abbrev pub reader : Reader
reader = record { decode = λ s. ok deploy; quote = λ s. s; templates = plain }

pub parse-deploy : parse reader "steps" ≡ ok deploy
unfolding parse validated check_steps step_fault labelled validate_prompt_template
parse-deploy = refl

parse-IsComplete_example :
    All (IsComplete plain "s1") (rules deploy)
    × UniqueLabels (rules deploy)
    × (ltb 0 (length (rules deploy)) ≡ true)
    × (("s1" == "") ≡ false)
    × (("claude" == "") ≡ false)
parse-IsComplete_example = parse-IsComplete reader "steps" deploy parse-deploy

abbrev pub outside : Outside
outside = record {
  draw = draws;
  config = record { marshal = λ c. ok "{}"; unmarshal = λ s. err "empty" };
  quote = λ s. s;
  parse_duration = λ s. ok (pos 0);
  parse_time = λ s. ok 90;
  format_time = λ t. "";
  docker_available = none;
  is_git_repository = λ s. true;
  version = "dev";
  new_id = "rule-9";
  manual_rule_id = "manual-1";
  manual_event_id = "manual-2";
}

abbrev pub daemon : Daemon
daemon = record {
  engine = record { conn = healthy world; bus = new_bus; awake = false };
  watches = new_manager;
}

-- A rule without a prompt.
abbrev promptless : RuleParams
promptless = record {
  type = "http.available";
  source = "";
  session_id = "s9";
  agent = "claude";
  repo_path = "/repo";
  prompt = "";
  label = "";
  one_shot = true;
  expires_at = "";
}

rule_add-IsSound_example :
    IsSound outside promptless
    ⊎ ((e : String) × (rule_add outside promptless daemon ≡ (err e, daemon)))
rule_add-IsSound_example = rule_add-IsSound outside promptless daemon

abbrev queued : Daemon
queued = record daemon {
  engine = record daemon.engine {
    conn = healthy (record world { continuations = asked_for outside "s1" "go on" ∷ [] });
    awake = true;
  };
}

run_continuation-world :
    run_continuation outside "s1" "go on" daemon
    ≡ (ok (continuation_reply (asked_for outside "s1" "go on")), queued)
unfolding run_continuation get_session find_session insert_manual_continuation add_continuation exec
run_continuation-world = refl

run_continuation_queues_example :
    ((sess : Session) × (find_session "s1" world.sessions ≡ some sess))
    × (continuation_reply (asked_for outside "s1" "go on")
        ≡ continuation_reply (asked_for outside "s1" "go on"))
    × (queued ≡ record {
      engine = record {
        conn = healthy (record world {
          continuations = world.continuations ++ asked_for outside "s1" "go on" ∷ [];
        });
        bus = new_bus;
        awake = true;
      };
      watches = new_manager;
    })
run_continuation_queues_example =
    run_continuation_queues outside "s1" "go on" world new_bus false new_manager
      (continuation_reply (asked_for outside "s1" "go on")) queued run_continuation-world
