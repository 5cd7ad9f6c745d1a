-- ===== src/Workflow.antt =====
-- internal/workflow: workflow files, which compile to one-shot rules.
pub mod Compiled
use runtime_pulse.Prelude.{
  ℕ, suc, String, Bool, true, false, not, Option, none, some, List, [], ◌∷◌, map, any, Result, ok,
  err, decimal, ◌==◌, if◌then◌else◌, str_append,
}
use runtime_pulse.Core.{
  EventSelector, Rule, TemplateEngine, validate_prompt_template, action_continue_session,
}

pub record Step : Type 0 where
  pub label : String
  pub on : EventSelector
  pub prompt : String

pub record Workflow : Type 0 where
  pub session : String
  pub agent : String
  pub repo : String
  pub steps : List Step

-- yaml.v3 with KnownFields, the text of fmt's %q, and the templates.
pub record Reader : Type 0 where
  pub decode : String → Result Workflow
  pub quote : String → String
  pub templates : TemplateEngine

-- A missing label is step-N, counted from 1.
unfoldable pub labelled : ℕ → Step → Step
labelled i s =
    if s.label == "" then record s { label = str_append "step-" (decimal (suc i)) } else s

abbrev pub step_error : Reader → Step → String → String
step_error r s what =
    str_append "workflow: step " (str_append (r.quote s.label) (str_append ": " what))

abbrev pub bad_template : Reader → Step → Option String → Option String
bad_template r s none = none
bad_template r s (some e) = some (step_error r s (str_append "bad prompt template: " e))

-- What is wrong with a step whose label is set; `seen` are the labels before it.
unfoldable pub step_fault : Reader → List String → Step → Option String
step_fault r seen s =
    if any (λ l. l == s.label) seen
    then some (str_append "workflow: duplicate label " (r.quote s.label))
    else if s.on.type == ""
    then some (step_error r s "on.type is required")
    else if s.prompt == ""
    then some (step_error r s "prompt is required")
    else bad_template r s (validate_prompt_template r.templates s.prompt)

abbrev pub add_step : Step → Result (List Step) → Result (List Step)
add_step s (ok l) = ok (s ∷ l)
add_step s (err e) = err e

abbrev pub checked_step : Option String → Step → Result (List Step) → Result (List Step)
checked_step (some e) s rest = err e
checked_step none s rest = add_step s rest

-- The loop over the steps.
unfoldable pub check_steps : Reader → ℕ → List String → List Step → Result (List Step)
check_steps r i seen [] = ok []
check_steps r i seen (s ∷ l) =
    let named = labelled i s in
    checked_step (step_fault r seen named) named (check_steps r (suc i) (named.label ∷ seen) l)

abbrev pub with_steps : Workflow → Result (List Step) → Result Workflow
with_steps w (ok l) = ok (record w { steps = l })
with_steps w (err e) = err e

unfoldable pub validated : Reader → Workflow → Result Workflow
validated r w =
    if w.session == ""
    then err "workflow: session is required"
    else if w.agent == ""
    then err "workflow: agent is required"
    else elim w.steps [
      | [] ↦ err "workflow: at least one step is required"
      | _ ↦ with_steps w (check_steps r 0 [] w.steps)
    ]

abbrev pub decoded_workflow : Reader → Result Workflow → Result Workflow
decoded_workflow r (ok w) = validated r w
decoded_workflow r (err e) = err (str_append "workflow: bad field or syntax: " e)

-- Parse
unfoldable pub parse : Reader → String → Result Workflow
parse r data_text = decoded_workflow r (r.decode data_text)

abbrev pub step_rule : Workflow → Step → Rule
step_rule w s = record {
  id = "";
  selector = s.on;
  action_kind = action_continue_session;
  session_id = w.session;
  prompt_template = s.prompt;
  label = s.label;
  one_shot = true;
  consumed = false;
  expires_at = none;
  created_at = 0;
}

-- Workflow.Rules
unfoldable pub rules : Workflow → List Rule
rules w = map (step_rule w) w.steps
