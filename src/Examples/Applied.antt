-- ===== src/Examples/Applied.antt =====
-- A workflow is applied: completely, and with a call that is lost.
use runtime_pulse.Prelude.{
  ℕ, zero, suc, ◌≡◌, refl, true, none, List, [], ◌∷◌, any, ok, err, inl, inr, ◌==◌,
}
use runtime_pulse.Core.{Session}
use runtime_pulse.Store.Tables.{empty_db}
use runtime_pulse.Core.{validate_prompt_template}
use runtime_pulse.Store.Sql.{exec}
use runtime_pulse.Store.Tables.{rule_row}
use runtime_pulse.Store.Sessions.{register_session, upsert_session, get_session, find_session}
use runtime_pulse.Store.Rules.{prepared, add_rule, insert_rule}
use runtime_pulse.Workflow.{
  Step, parse, validated, check_steps, step_fault, labelled, step_rule, rules,
}
use runtime_pulse.Daemon.Rules.{rule_add, parse_expiry, add_checked, ensure_session}
use runtime_pulse.Daemon.Methods.{dispatch}
use runtime_pulse.Daemon.Added.{over, with_sessions, with_rules}
use runtime_pulse.Client.{delivered, lost, call, handle_request}
use runtime_pulse.Client.Apply.{Trip, Shell, step_failure, add_rules, apply}
use runtime_pulse.Client.Apply.Undo.{Answered, apply_all_or_nothing}
use runtime_pulse.Client.Apply.Complete.{NewIds, step_rows, apply_arms_workflow}
use runtime_pulse.Examples.{world, drawn, drawn_distinct}
use runtime_pulse.Examples.Requests.{outside, daemon, deploy, reader, parse-deploy}

abbrev shell : Shell
shell = record { read_file = λ p. ok "steps"; getwd = ok "/repo"; abs = λ p. ok p; dial = none }

abbrev trips : ℕ → Trip
trips n = record { transport = delivered; outside = record outside { new_id = drawn n } }

ids-new : NewIds trips []
ids-new = record { absent = λ n. refl; distinct = drawn_distinct }

apply_arms_workflow_example :
    (sessions : List Session) × (any (λ s. s.session_id == "s1") sessions ≡ true)
    × (apply shell reader trips trips "deploy.yaml" (over daemon empty_db) ≡ (
      ok tt,
      over daemon
          (with_rules (with_sessions empty_db sessions) (step_rows trips deploy deploy.steps)),
    ))
apply_arms_workflow_example =
    apply_arms_workflow shell reader trips trips "deploy.yaml" "steps" "/repo" "/repo" deploy daemon
      empty_db refl parse-deploy refl refl refl refl (λ n. refl) (λ n. refl) ids-new

-- The second call of rule.add does not reach the daemon.
abbrev losing : ℕ → Trip
losing zero = trips zero
losing (suc n) = record { transport = lost "no route"; outside = outside }

abbrev second : Step
second = record {
  label = "test";
  on = record { type = "continuation.completed"; source = "build" };
  prompt = "test it";
}

losing-Answered : Answered losing
losing-Answered zero = inl refl
losing-Answered (suc n) = inr ("no route", refl)

apply-fails :
    (apply shell reader losing trips "deploy.yaml" (over daemon world)).0
    ≡ err (step_failure outside (step_rule deploy second) "no route" ("c" ∷ []))
unfolding apply add_rules rules call handle_request dispatch rule_add parse_expiry add_checked
    ensure_session register_session upsert_session get_session find_session add_rule insert_rule
    prepared rule_row exec validate_prompt_template parse validated check_steps step_fault labelled
apply-fails = refl

apply_all_or_nothing_example :
    (sessions : List Session) × ((apply shell reader losing trips "deploy.yaml"
        (over daemon world)).1
      ≡ over daemon (with_sessions world sessions))
apply_all_or_nothing_example =
    apply_all_or_nothing shell reader losing trips "deploy.yaml" daemon world
      (step_failure outside (step_rule deploy second) "no route" ("c" ∷ [])) losing-Answered
      (λ n. refl) apply-fails
