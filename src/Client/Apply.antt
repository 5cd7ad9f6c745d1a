-- ===== src/Client/Apply.antt =====
-- cmd/runtimepulse/cmd_apply.go: a workflow file is compiled, and its rules are added one by one.
pub mod Rows
pub mod Undo
pub mod Complete
use runtime_pulse.Prelude.{
  ℕ, suc, String, true, Option, none, some, List, [], ◌∷◌, ◌++◌, Result, ok, err, length, decimal,
  ◌==◌, if◌then◌else◌, str_append,
}
use runtime_pulse.Core.{Rule}
use runtime_pulse.Workflow.{Workflow, Reader, parse, rules}
use runtime_pulse.Daemon.{Daemon, Outside, Rpc, Reply, rule_reply}
use runtime_pulse.Daemon.Rules.{RuleParams}
use runtime_pulse.Daemon.Methods.{rule_add_request, rule_remove}
use runtime_pulse.Client.{Transport, call}

-- A call with what it takes from outside at its time.
pub record Trip : Type 0 where
  pub transport : Transport
  pub outside : Outside

-- The files and directories of the caller; each may fail.
pub record Shell : Type 0 where
  pub read_file : String → Result String
  pub getwd : Result String
  pub abs : String → Result String
  pub dial : Option String

-- The parameters of the call of rule.add.
abbrev pub add_params : Workflow → String → Rule → RuleParams
add_params w abs r = record {
  type = r.selector.type;
  source = r.selector.source;
  session_id = r.session_id;
  agent = w.agent;
  repo_path = abs;
  prompt = r.prompt_template;
  label = r.label;
  one_shot = true;
  expires_at = "";
}

-- The id of the rule, if the result has one.
abbrev pub noted : List String → Option Reply → List String
noted created (some (rule_reply r)) = created ++ r.id ∷ []
noted created _ = created

-- The calls of rule.remove, whose results are dropped.
unfoldable pub rollback : (ℕ → Trip) → List String → Daemon → Daemon
rollback undos [] d = d
rollback undos (id ∷ created) d =
    rollback (λ n. undos (suc n)) created
      (call (undos 0).transport (undos 0).outside (rule_remove id) d).1

abbrev pub step_failure : Outside → Rule → String → List String → String
step_failure o r e created = str_append "apply: step " (
    str_append (o.quote r.label) (
      str_append " failed: " (
        str_append e
          (str_append " (rolled back " (str_append (decimal (length created)) " created rules)")))))

module _ (w : Workflow) (abs : String) where
  -- The loop over the rules.
  unfoldable pub add_rules : (ℕ → Trip) → (ℕ → Trip) → List String → List Rule → Rpc (Unit {0})
  add_rules adds undos created [] d = (ok tt, d)
  add_rules adds undos created (r ∷ rs) d =
      let (out, d') =
        call (adds 0).transport (adds 0).outside (rule_add_request (add_params w abs r)) d in
      elim out [
        | ok reply ↦ add_rules (λ n. adds (suc n)) undos (noted created reply) rs d'
        | err e ↦ (err (step_failure (adds 0).outside r e created), rollback undos created d')
      ]

abbrev pub dialled :
    Option String → (ℕ → Trip) → (ℕ → Trip) → Workflow → Result String → Rpc (Unit {0})
dialled none adds undos w (ok abs) d = add_rules w abs adds undos [] (rules w) d
dialled (some e) adds undos w (ok abs) d = (err e, d)
dialled dial adds undos w (err e) d = (err e, d)

abbrev pub located : Shell → (ℕ → Trip) → (ℕ → Trip) → Workflow → Result String → Rpc (Unit {0})
located m adds undos w (ok repo) d = dialled m.dial adds undos w (m.abs repo) d
located m adds undos w (err e) d = (err e, d)

abbrev pub compiled : Shell → (ℕ → Trip) → (ℕ → Trip) → Result Workflow → Rpc (Unit {0})
compiled m adds undos (ok w) d =
    located m adds undos w (if w.repo == "" then m.getwd else ok w.repo) d
compiled m adds undos (err e) d = (err e, d)

abbrev pub read_workflow : Reader → Result String → Result Workflow
read_workflow r (ok text) = parse r text
read_workflow r (err e) = err e

-- The whole command: `adds` and `undos` are its calls of rule.add and of rule.remove, in turn.
unfoldable pub apply : Shell → Reader → (ℕ → Trip) → (ℕ → Trip) → String → Rpc (Unit {0})
apply m r adds undos path d = compiled m adds undos (read_workflow r (m.read_file path)) d
