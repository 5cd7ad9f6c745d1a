-- ===== src/Setup/Agents.antt =====
-- internal/setup: setup.go, file.go, native.go and WriteRules of rules.go.
pub mod Reports
pub mod Selection
use runtime_pulse.Prelude.{
  String, Bool, true, false, not, ◌&&◌, Option, none, some, List, [], ◌∷◌, any, Result, ok, err,
  ◌==◌, if◌then◌else◌, str_append,
}
use runtime_pulse.Setup.{Text, Disk}
use runtime_pulse.Setup.Block.{release_resume_rule_body, Action, manual, merge_marker_block}
use runtime_pulse.Setup.Config.{
  Json, object, quoted, scalar, Fields, no_fields, field, JsonCodec, merge_json_server,
  has_json_server,
}

pub data Scope : Type 0 where
  user project : Scope

-- Scope.String
abbrev pub scope_text : Scope → String
scope_text user = "user"
scope_text project = "project"

pub record Status : Type 0 where
  pub installed : Bool
  pub registered : Bool

pub record Agent : Type 0 where
  pub name : String
  pub status : Scope → Disk → Status
  pub register : String → Scope → Disk → Result (Unit {0}) × Disk
  pub supports_scope : Scope → Bool

-- The machine: exec.LookPath, the running of a command with its output and error, filepath.Join, the
-- functions of package strings, and encoding/json with its arrays of texts.
pub record Host : Type 0 where
  pub look_path : String → Bool
  pub command : String → List String → Disk → (String × Option String) × Disk
  pub join : List String → String
  pub contains : String → String → Bool
  pub to_lower : String → String
  pub trim_space : String → String
  pub codec : JsonCodec
  pub array : List String → Json

-- execRun, with the error of execQuery and its output.
abbrev pub with_output : Host → String → Option String → Option String
with_output h out none = none
with_output h out (some e) =
    if h.trim_space out == ""
    then some e
    else some (str_append e (str_append ": " (h.trim_space out)))

-- tolerateExists
unfoldable pub tolerate_exists : Host → Option String → Result (Unit {0})
tolerate_exists h none = ok tt
tolerate_exists h (some e) = if h.contains (h.to_lower e) "already exists" then ok tt else err e

unfoldable pub add_by_command : Host → String → List String → Disk → Result (Unit {0}) × Disk
add_by_command h name args d =
    let (ran, d') = h.command name args d in (tolerate_exists h (with_output h ran.0 ran.1), d')

abbrev listed : Host → String × Option String → Bool
listed h (out, none) = h.contains out "runtimepulse"
listed h (out, some e) = false

unfoldable pub status_by_command : Host → String → Disk → Status
status_by_command h name d =
    if not (h.look_path name) then record { installed = false; registered = false } else record {
      installed = true;
      registered = listed h (h.command name ("mcp" ∷ "list" ∷ []) d).0;
    }

unfoldable pub claude_agent : Host → Agent
claude_agent h = record {
  name = "claude";
  status = λ scope d. status_by_command h "claude" d;
  register = λ bin scope d.
      add_by_command h "claude"
        ("mcp"
          ∷ "add"
          ∷ "--transport"
          ∷ "stdio"
          ∷ "--scope"
          ∷ scope_text scope
          ∷ "runtimepulse"
          ∷ "--"
          ∷ bin
          ∷ "mcp"
          ∷ [])
        d;
  supports_scope = λ scope. true;
}

abbrev is_user : Scope → Bool
is_user user = true
is_user project = false

unfoldable pub codex_agent : Host → Agent
codex_agent h = record {
  name = "codex";
  status = λ scope d. status_by_command h "codex" d;
  register = λ bin scope d.
      add_by_command h "codex" ("mcp" ∷ "add" ∷ "runtimepulse" ∷ "--" ∷ bin ∷ "mcp" ∷ []) d;
  supports_scope = is_user;
}

-- The file that an agent is registered in.
abbrev pub cursor_path : Host → String → String → Scope → String
cursor_path h home cwd project = h.join (cwd ∷ ".cursor" ∷ "mcp.json" ∷ [])
cursor_path h home cwd user = h.join (home ∷ ".cursor" ∷ "mcp.json" ∷ [])

abbrev pub open_code_path : Host → String → String → Scope → String
open_code_path h home cwd project = h.join (cwd ∷ "opencode.json" ∷ [])
open_code_path h home cwd user = h.join (home ∷ ".config" ∷ "opencode" ∷ "opencode.json" ∷ [])

unfoldable pub cursor_agent : Host → String → String → Agent
cursor_agent h home cwd = record {
  name = "cursor";
  status = λ scope d. record {
    installed = if h.look_path "agent" then true else h.look_path "cursor-agent";
    registered =
        has_json_server h.codec (cursor_path h home cwd scope) "mcpServers" "runtimepulse" d;
  };
  register = λ bin scope d.
      merge_json_server h.codec (cursor_path h home cwd scope) "mcpServers" "runtimepulse"
        (object (field "command" (quoted bin) (field "args" (h.array ("mcp" ∷ [])) no_fields))) d;
  supports_scope = λ scope. true;
}

unfoldable pub open_code_agent : Host → String → String → Agent
open_code_agent h home cwd = record {
  name = "opencode";
  status = λ scope d. record {
    installed = h.look_path "opencode";
    registered = has_json_server h.codec (open_code_path h home cwd scope) "mcp" "runtimepulse" d;
  };
  register = λ bin scope d.
      merge_json_server h.codec (open_code_path h home cwd scope) "mcp" "runtimepulse"
        (object (
          field "type" (quoted "local") (
            field "command" (h.array (bin ∷ "mcp" ∷ []))
              (field "enabled" (scalar "true") no_fields))))
        d;
  supports_scope = λ scope. true;
}

-- Registry
unfoldable pub registry : Host → String → String → List Agent
registry h home cwd =
    claude_agent h ∷ cursor_agent h home cwd ∷ codex_agent h ∷ open_code_agent h home cwd ∷ []

-- DetectAll
unfoldable pub detect_all : List Agent → Scope → Disk → List (Agent × Status)
detect_all [] scope d = []
detect_all (a ∷ agents) scope d = (a, a.status scope d) ∷ detect_all agents scope d

-- The outcome of registering one agent.
pub record Outcome : Type 0 where
  pub agent : String
  pub done : Bool
  pub skipped : Bool
  pub note : String
  pub error : Option String

abbrev pub outcome_of : String → String → Result (Unit {0}) × Disk → Outcome × Disk
outcome_of name note (ok _, d) =
    (record { agent = name; done = true; skipped = false; note = note; error = none }, d)
outcome_of name note (err e, d) =
    (record { agent = name; done = false; skipped = false; note = note; error = some e }, d)

-- The body of the loop of Run, for a selected agent.
unfoldable pub run_one : String → Scope → Agent → Disk → Outcome × Disk
run_one bin scope a d =
    let st = a.status scope d in
    if not st.installed
    then (
      record {
        agent = a.name;
        done = false;
        skipped = false;
        note = "";
        error = some (str_append a.name " CLI not found on PATH");
      },
      d,
    )
    else if st.registered
    then (record { agent = a.name; done = true; skipped = true; note = ""; error = none }, d)
    else if a.supports_scope scope
    then outcome_of a.name "" (a.register bin scope d)
    else outcome_of a.name
        (str_append a.name (
          str_append ": "
            (str_append (scope_text scope) " scope unsupported, registered at user scope")))
        (a.register bin user d)

abbrev pub named_in : List String → String → Bool
named_in names name = any (λ n. n == name) names

-- Run
unfoldable pub run_setup : List String → String → Scope → List Agent → Disk → List Outcome × Disk
run_setup names bin scope [] d = ([], d)
run_setup names bin scope (a ∷ agents) d =
    let (r, d') = run_one bin scope a d in
    let (rs, d'') = run_setup names bin scope agents d' in
    let skip = run_setup names bin scope agents d in
    if named_in names a.name then (r ∷ rs, d'') else skip

-- The outcome of installing the rule for one agent; an empty action is `none`.
pub record RuleResult : Type 0 where
  pub agent : String
  pub action : Option Action
  pub path : String
  pub by_hand : Bool
  pub paste : Text
  pub error : Option String

abbrev pub rule_written : String → String → Result Action × Disk → RuleResult × Disk
rule_written name path (ok a, d) = (
  record { agent = name; action = some a; path = path; by_hand = false; paste = []; error = none },
  d,
)
rule_written name path (err e, d) = (
  record { agent = name; action = none; path = path; by_hand = false; paste = []; error = some e },
  d,
)

-- What the user of Cursor has to paste.
unfoldable pub pasted_rule : String → RuleResult
pasted_rule name = record {
  agent = name;
  action = some manual;
  path = "";
  by_hand = true;
  paste = release_resume_rule_body;
  error = none;
}

abbrev file_rule : String → String → Bool → Disk → Option (RuleResult × Disk)
file_rule name path dry_run d = some (rule_written name path (merge_marker_block path dry_run d))

-- ruleWriterFor, and what its writer does.
unfoldable pub write_rule : Host → String → String → Bool → Disk → Option (RuleResult × Disk)
write_rule h home name dry_run d =
    if name == "claude"
    then file_rule name (h.join (home ∷ ".claude" ∷ "CLAUDE.md" ∷ [])) dry_run d
    else if name == "codex"
    then file_rule name (h.join (home ∷ ".codex" ∷ "AGENTS.md" ∷ [])) dry_run d
    else if name == "opencode"
    then file_rule name (h.join (home ∷ ".config" ∷ "opencode" ∷ "AGENTS.md" ∷ [])) dry_run d
    else if name == "cursor"
    then some (pasted_rule name, d)
    else none

abbrev pub disk_after : Option (RuleResult × Disk) → Disk → Disk
disk_after none d = d
disk_after (some (r, d')) d = d'

abbrev pub add_result : Option (RuleResult × Disk) → List RuleResult → List RuleResult
add_result none l = l
add_result (some (r, d)) l = r ∷ l

-- WriteRules
unfoldable pub write_rules :
    Host → String → List String → Bool → List Agent → Disk → List RuleResult × Disk
write_rules h home names dry_run [] d = ([], d)
write_rules h home names dry_run (a ∷ agents) d =
    let w = write_rule h home a.name dry_run d in
    let (l, d') = write_rules h home names dry_run agents (disk_after w d) in
    let skip = write_rules h home names dry_run agents d in
    if named_in names a.name then (add_result w l, d') else skip
