-- ===== src/Core.antt =====
-- internal/core: events, rules, sessions, continuations. A `time.Time` is a number of nanoseconds
-- since Go's zero time; a `map[string]string` is an association list.
pub mod Selection
use runtime_pulse.Prelude.{
  ℕ, ℤ, String, Bool, true, false, ◌||◌, Option, none, some, List, Result, ok, err, ltb, ◌==◌,
  if◌then◌else◌,
}

abbrev pub Payload : Type 0
Payload = List (String × String)

pub record Event : Type 0 where
  pub id : String
  pub type : String
  pub source : String
  pub payload : Payload
  pub timestamp : ℕ

pub record EventSelector : Type 0 where
  pub type : String
  pub source : String  -- empty matches any source

-- EventSelector.Matches
unfoldable pub matches : EventSelector → Event → Bool
matches s ev = if s.type == ev.type then s.source == "" || s.source == ev.source else false

abbrev pub action_continue_session : String
action_continue_session = "continue_session"

pub record Rule : Type 0 where
  pub id : String
  pub selector : EventSelector
  pub action_kind : String
  pub session_id : String
  pub prompt_template : String
  pub label : String
  pub one_shot : Bool
  pub consumed : Bool
  pub expires_at : Option ℕ
  pub created_at : ℕ

-- Rule.Active
unfoldable pub active : Rule → ℕ → Bool
active r now = if r.consumed then false else elim r.expires_at [ none ↦ true | some t ↦ ltb now t ]

-- Go's text/template: `parse` gives the text of a syntax error, `execute` the rendered text.
pub record TemplateEngine : Type 0 where
  pub parse : String → Option String
  pub execute : String → Event → Result String

-- Rule.RenderPrompt
unfoldable pub render_prompt : TemplateEngine → Rule → Event → Result String
render_prompt t r ev = elim (t.parse r.prompt_template) [
  | some e ↦ err e
  | none ↦ t.execute r.prompt_template ev
]

-- ValidatePromptTemplate: nothing is executed.
unfoldable pub validate_prompt_template : TemplateEngine → String → Option String
validate_prompt_template t s = t.parse s

-- The registry's column is a text, which `session.register` may fill with any other.
abbrev pub SessionState : Type 0
SessionState = String

abbrev pub session_waiting : SessionState
session_waiting = "waiting"

abbrev pub session_running : SessionState
session_running = "running"

pub record Session : Type 0 where
  pub session_id : String
  pub agent : String
  pub repo_path : String
  pub state : SessionState
  pub created_at : ℕ
  pub updated_at : ℕ

pub data ContinuationState : Type 0 where
  pending running completed failed : ContinuationState

-- The text that the database holds for a state.
abbrev pub state_text : ContinuationState → String
state_text pending = "pending"
state_text running = "running"
state_text completed = "completed"
state_text failed = "failed"

pub record Continuation : Type 0 where
  pub id : String
  pub rule_id : String
  pub event_id : String
  pub session_id : String
  pub prompt : String
  pub label : String
  pub state : ContinuationState
  pub command : String
  pub exit_code : Option ℤ
  pub output_summary : String
  pub created_at : ℕ
  pub updated_at : ℕ
