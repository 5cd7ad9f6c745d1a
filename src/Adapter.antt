-- ===== src/Adapter.antt =====
-- internal/adapter: how a run of an agent's command line becomes a result.
pub mod Summary
use Prim.Native.String.{len, slice}
use runtime_pulse.Prelude.{
  ℕ, ℤ, pos, negsuc, String, Bool, true, false, not, ◌&&◌, Option, none, some, List, [], ◌∷◌, leb,
  ◌==◌, if◌then◌else◌, str_append,
}
use runtime_pulse.Core.{Session}
use runtime_pulse.Dispatch.{RunResult, Resume, Registry, join_with}

-- summaryLimit
abbrev pub summary_limit : ℕ
summary_limit = 500

-- truncate: the whole characters of the first bytes.
unfoldable pub truncate : String → String
truncate s = if leb (len s) summary_limit then s else slice s 0 summary_limit

-- What cmd.Run came to; `cut` is an error while the context is cancelled or out of time, `broken`
-- one that is no exit of the process.
pub data Ending : Type 0 where
  succeeded : Ending
  exited : ℤ → Ending
  cut : Ending
  broken : String → Ending

-- A process that has ended, with its streams.
pub record Ran : Type 0 where
  pub stdout : String
  pub stderr : String
  pub duration_ms : ℕ
  pub ending : Ending

-- strings.TrimSpace, the field `result` of a JSON object if encoding/json reads one, the binaries that
-- the environment names, and the machine that runs a command in a directory.
pub record Machine : Type 0 where
  pub trim : String → String
  pub result_field : String → Option String
  pub getenv : String → String
  pub look_path : String → Bool
  pub run : String → List String → String → Ran

abbrev pub or_trimmed : Machine → String → Option String → String
or_trimmed m out none = truncate (m.trim out)
or_trimmed m out (some r) = if r == "" then truncate (m.trim out) else truncate r

-- ParseResultJSON; its Boolean is used by no caller of the package.
unfoldable pub parse_result_json : Machine → String → String
parse_result_json m out = or_trimmed m out (m.result_field out)

-- The parser of Codex and OpenCode.
abbrev pub parse_plain : Machine → String → String
parse_plain m out = truncate (m.trim out)

abbrev pub result_with : String → ℕ → ℤ → String → RunResult
result_with command duration code summary = record {
  command = command;
  exit_code = code;
  output_summary = summary;
  duration_ms = duration;
}

-- The summary of each ending.
unfoldable pub summarize :
    (String → String) → String → String → Ending → ℤ × (String × Option String)
summarize parse out err_tail succeeded = (
  pos 0,
  (
    if (parse out == "") && not (err_tail == "")
        then str_append "(stderr) " err_tail
        else parse out,
    none,
  ),
)
summarize parse out err_tail (exited code) =
    (code, (if err_tail == "" then parse out else err_tail, none))
summarize parse out err_tail cut = (
  negsuc 0,
  (
    if err_tail == ""
        then "resume timed out or cancelled"
        else str_append "resume timed out or cancelled" (str_append ": " err_tail),
    none,
  ),
)
summarize parse out err_tail (broken e) = (pos 0, ("", some e))

-- runCLI
unfoldable pub run_cli :
    Machine → String → List String → String → (String → String) → RunResult × Option String
unfolding summarize
run_cli m bin args dir parse =
    let ran = m.run bin args dir in
    let s = summarize parse ran.stdout (truncate (m.trim ran.stderr)) ran.ending in
    (
      result_with (str_append bin (str_append " " (join_with " " args))) ran.duration_ms s.0 s.1.0,
      s.1.1,
    )

abbrev pub named_or : String → String → String
named_or name other = if name == "" then other else name

-- claudeBin, codexBin, openCodeBin, cursorBin
unfoldable pub claude_bin : Machine → String
claude_bin m = named_or (m.getenv "RUNTIMEPULSE_CLAUDE_BIN") "claude"

unfoldable pub codex_bin : Machine → String
codex_bin m = named_or (m.getenv "RUNTIMEPULSE_CODEX_BIN") "codex"

unfoldable pub open_code_bin : Machine → String
open_code_bin m = named_or (m.getenv "RUNTIMEPULSE_OPENCODE_BIN") "opencode"

unfoldable pub cursor_bin : Machine → String
cursor_bin m =
    named_or (m.getenv "RUNTIMEPULSE_CURSOR_BIN")
      (if m.look_path "agent" then "agent" else "cursor-agent")

-- BuildClaudeArgs, BuildCodexArgs, BuildCursorArgs, BuildOpenCodeArgs
unfoldable pub build_claude_args : String → String → List String
build_claude_args id prompt =
    "--resume" ∷ id ∷ "--output-format" ∷ "json" ∷ "-p" ∷ "--" ∷ prompt ∷ []

unfoldable pub build_codex_args : String → String → List String
build_codex_args id prompt = "exec" ∷ "resume" ∷ id ∷ "--skip-git-repo-check" ∷ "--" ∷ prompt ∷ []

unfoldable pub build_cursor_args : String → String → List String
build_cursor_args id prompt =
    "-p" ∷ "--resume" ∷ id ∷ "--output-format" ∷ "json" ∷ "--" ∷ prompt ∷ []

unfoldable pub build_open_code_args : String → String → List String
build_open_code_args id prompt = "run" ∷ "--session" ∷ id ∷ "--" ∷ prompt ∷ []

-- The Resume methods.
unfoldable pub claude_resume : Machine → Resume
claude_resume m s prompt =
    run_cli m (claude_bin m) (build_claude_args s.session_id prompt) s.repo_path
      (parse_result_json m)

unfoldable pub codex_resume : Machine → Resume
codex_resume m s prompt =
    run_cli m (codex_bin m) (build_codex_args s.session_id prompt) s.repo_path (parse_plain m)

unfoldable pub cursor_resume : Machine → Resume
cursor_resume m s prompt =
    run_cli m (cursor_bin m) (build_cursor_args s.session_id prompt) s.repo_path
      (parse_result_json m)

unfoldable pub open_code_resume : Machine → Resume
open_code_resume m s prompt =
    run_cli m (open_code_bin m) (build_open_code_args s.session_id prompt) s.repo_path
      (parse_plain m)

-- The registry that the daemon gives to its dispatcher.
unfoldable pub agents : Machine → Registry
agents m =
    ("claude", claude_resume m)
    ∷ ("cursor", cursor_resume m)
    ∷ ("codex", codex_resume m)
    ∷ ("opencode", open_code_resume m)
    ∷ []
