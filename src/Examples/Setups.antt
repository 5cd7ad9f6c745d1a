-- ===== src/Examples/Setups.antt =====
-- The set-up of agents, and the watches of a file and of a repository.
use runtime_pulse.Prelude.{
  String, ◌≡◌, refl, Bool, true, false, ◌&&◌, pos, Result, none, some, List, [], ◌∷◌, ◌++◌, ok, err,
  inl, inr, ap, ◌==◌, eq_iff, arith, Bool-cases, if◌then◌else◌,
}
use runtime_pulse.Setup.{Text, chars, missing, present, Disk, written_over, atomic_write}
use runtime_pulse.Setup.Block.{
  rule_begin_marker, rule_end_marker, line_end, managed_block, updated, unchanged, replaced, merged,
  merge_marker_block,
}
use runtime_pulse.Setup.Idempotent.{Ordered, Kept, merge_idempotent}
use runtime_pulse.Setup.Config.{
  Json, object, quoted, Fields, no_fields, field, JsonCodec, lookup, assign, with_entry,
  merge_json_server, has_json_server,
}
use runtime_pulse.Setup.Config.Entries.{Held, Extends, ReadsBack, merge_registers}
use runtime_pulse.Setup.Config.Leaves.{leaf}
use runtime_pulse.Watch.{Config}
use runtime_pulse.Watch.File.{FileInput, fs_event, quiet, back, run_file_watch, file_step}
use runtime_pulse.Watch.File.Truth.{heard, file_events_tell}
use runtime_pulse.Watch.Git.{GitEvent, git_debounce, run_git_watch}
use runtime_pulse.Watch.Git.Spacing.{Spaced, git_events-Spaced}
use runtime_pulse.Setup.Agents.{Agent, Host, user, cursor_agent}
use runtime_pulse.Setup.Agents.Reports.{register-status}
use runtime_pulse.Setup.Agents.Selection.{
  Words, parse_agent_flag, flag_loop, parse_selection, selection_loop,
}
use runtime_pulse.Setup.Agents.Selection.Choice.{IsChoice, chosen-IsChoice}

abbrev file_inputs : List FileInput
file_inputs =
    fs_event
      (record { name = "/d/f"; created = true; wrote = false; removed = false; renamed = false })
      (back false)
    ∷ quiet true
    ∷ fs_event
        (record { name = "/d"; created = false; wrote = false; removed = true; renamed = false })
        (back false)
    ∷ []

file_events_tell_example :
    let (s, l) = run_file_watch "/d/f" "/d" false file_inputs in
    (heard false l ≡ some s.exists)
    × ((if s.pending then (file_step "/d/f" "/d" s (quiet true)).0.exists else true) ≡ true)
file_events_tell_example = file_events_tell "/d/f" "/d" false file_inputs true

abbrev head : GitEvent
head = record { base = "HEAD"; dir = "/r/.git"; in_heads = false; branch = "main" }

abbrev git_config : Config
git_config = record { interval = pos 0; stability_threshold = pos 10 }

git_events-Spaced_example :
    Spaced
      (git_debounce git_config)
      (run_git_watch git_config "/r/.git" ((head, 1) ∷ (head, 5) ∷ (head, 20) ∷ []))
git_events-Spaced_example =
    git_events-Spaced git_config "/r/.git" ((head, 1) ∷ (head, 5) ∷ (head, 20) ∷ [])

abbrev words : Words
words = record {
  split = λ s. s ∷ [];
  trim_space = λ s. s;
  to_lower = λ s. s;
  atoi = λ s. none;
  quote = λ s. s;
}

abbrev two_agents : List String
two_agents = "claude" ∷ "cursor" ∷ []

flag-cursor : parse_agent_flag words "cursor" two_agents ≡ ok ("cursor" ∷ [])
unfolding parse_agent_flag flag_loop
flag-cursor = refl

selection-claude : parse_selection words "claude" two_agents ≡ ok (some ("claude" ∷ []))
unfolding parse_selection selection_loop
selection-claude = refl

chosen-IsChoice_example : IsChoice two_agents ("cursor" ∷ []) × IsChoice two_agents ("claude" ∷ [])
chosen-IsChoice_example =
    chosen-IsChoice words "cursor" "claude" two_agents ("cursor" ∷ []) ("claude" ∷ [])
      (refl, (refl, tt)) flag-cursor selection-claude

-- Instructions with a stale block between the user's lines.
abbrev stale : Text
stale =
    chars "be kind\n"
    ++ (rule_begin_marker ++ (chars "\nstale\n" ++ (rule_end_marker ++ chars "\nbe brief\n")))

abbrev notes : Disk
notes = record {
  files = λ p. if p == "CLAUDE.md" then present stale else missing;
  write_fault = λ p. none;
}

notes-InOrder : Ordered (notes.files "CLAUDE.md")
unfolding chars rule_begin_marker rule_end_marker
notes-InOrder = inr (8, 73, refl, refl, omega arith)

abbrev with_block : Disk
with_block =
    written_over "CLAUDE.md" (chars "be kind\n" ++ (managed_block ++ chars "\nbe brief\n")) notes

merge-notes : merge_marker_block "CLAUDE.md" false notes ≡ (ok updated, with_block)
unfolding merge_marker_block merged replaced atomic_write chars rule_begin_marker rule_end_marker
    managed_block
merge-notes = refl

merge_idempotent_example :
    (merge_marker_block "CLAUDE.md" false with_block ≡ (ok unchanged, with_block))
    × (pre post : Text) × (with_block.files "CLAUDE.md" ≡ present (pre ++ (managed_block ++ post)))
    × Kept (notes.files "CLAUDE.md") pre post
merge_idempotent_example =
    merge_idempotent "CLAUDE.md" updated notes with_block notes-InOrder merge-notes

-- A codec that knows one object, the one that Cursor's registration makes of nothing.
abbrev one_entry : String → String → String → String → String → String → Fields
one_entry a b c d e f =
    field a
      (object (field b (object (field c (quoted d) (field e (quoted f) no_fields))) no_fields))
      no_fields

abbrev known : Fields
known = one_entry "mcpServers" "runtimepulse" "command" "/bin/rp" "args" "mcp"

abbrev is_known : String → String → String → String → String → String → Bool
is_known a b c d e f =
    a == "mcpServers"
    && (b == "runtimepulse" && (c == "command" && (d == "/bin/rp" && (e == "args" && f == "mcp"))))

abbrev encode_known : Fields → Result Text
encode_known
      (field a
        (object (field b (object (field c (quoted d) (field e (quoted f) no_fields))) no_fields))
        no_fields) =
    if is_known a b c d e f then ok [] else err "unknown"
encode_known _ = err "unknown"

abbrev codec : JsonCodec
codec = record {
  decode = λ t. ok (some known);
  unmarshal = λ t. ok (some known);
  encode = encode_known;
}

codec-ReadsBack : ReadsBack codec
codec-ReadsBack
      (field a
        (object (field b (object (field c (quoted d) (field e (quoted f) no_fields))) no_fields))
        no_fields)
      out h =
    elim (Bool-cases (is_known a b c d e f)) [
      | inr other ↦ absurd (cc (rw other at h))
      | inl same ↦
          let ea : a ≡ "mcpServers" = (eq_iff a "mcpServers").0 (ground arith) in
          let eb : b ≡ "runtimepulse" = (eq_iff b "runtimepulse").0 (ground arith) in
          let ec : c ≡ "command" = (eq_iff c "command").0 (ground arith) in
          let ed : d ≡ "/bin/rp" = (eq_iff d "/bin/rp").0 (ground arith) in
          let ee : e ≡ "args" = (eq_iff e "args").0 (ground arith) in
          let ef : f ≡ "mcp" = (eq_iff f "mcp").0 (ground arith) in
          (
            known,
            refl,
            refl,
            λ path. ap (λ x. leaf path (object x)) (rw (ea, eb, ec, ed, ee, ef) refl),
          )
    ]
codec-ReadsBack _ out h = absurd (cc h)

abbrev host : Host
host = record {
  look_path = λ s. true;
  command = λ name args d. (("", some "exit status 1"), d);
  join = λ l. "mcp.json";
  contains = λ s t. false;
  to_lower = λ s. s;
  trim_space = λ s. s;
  codec = codec;
  array = λ l. quoted "mcp";
}

abbrev bare : Disk
bare = record { files = λ p. missing; write_fault = λ p. none }

abbrev entry : Json
entry = object (field "command" (quoted "/bin/rp") (field "args" (quoted "mcp") no_fields))

merge-bare :
    merge_json_server codec "mcp.json" "mcpServers" "runtimepulse" entry bare
    ≡ (ok tt, written_over "mcp.json" line_end bare)
unfolding merge_json_server atomic_write with_entry assign lookup
merge-bare = refl

merge_registers_example :
    (has_json_server codec "mcp.json" "mcpServers" "runtimepulse"
        (written_over "mcp.json" line_end bare)
      ≡ true)
    × ((root root' : Fields) × (out : Text) × Held codec missing root
        × ((written_over "mcp.json" line_end bare).files "mcp.json" ≡ present out)
        × (codec.unmarshal out ≡ ok (some root'))
        × Extends "mcpServers" "runtimepulse" entry root root')
    × ((p : String)
        → (p == "mcp.json") ≡ false
        → (written_over "mcp.json" line_end bare).files p ≡ missing)
merge_registers_example =
    merge_registers codec "mcp.json" "mcpServers" "runtimepulse" entry codec-ReadsBack bare
      (written_over "mcp.json" line_end bare) merge-bare

abbrev cursor : Agent
cursor = cursor_agent host "/home" "/repo"

cursor-registers :
    cursor.register "/bin/rp" user bare ≡ (ok tt, written_over "mcp.json" line_end bare)
unfolding cursor_agent merge_json_server atomic_write with_entry assign lookup
cursor-registers = refl

register-status_example :
    (cursor.status user (written_over "mcp.json" line_end bare)).registered ≡ true
register-status_example =
    register-status host "/home" "/repo" cursor "/bin/rp" user bare
      (written_over "mcp.json" line_end bare) codec-ReadsBack (inl refl) cursor-registers
