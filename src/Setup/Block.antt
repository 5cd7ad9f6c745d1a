-- ===== src/Setup/Block.antt =====
-- internal/setup/rules.go: the block that the set-up keeps in the instructions of an agent.
use runtime_pulse.Prelude.{
  ℕ, ◌+◌, String, Bool, Option, none, some, List, [], ◌∷◌, ◌++◌, length, take, leb, Result, ok, err,
  if◌then◌else◌,
}
use runtime_pulse.Setup.{Text, chars, Found, missing, unreadable, present, Disk, atomic_write}
use runtime_pulse.Setup.Texts.{index, drop, trim_right, same_text}

unfoldable pub rule_begin_marker : Text
unfolding chars
rule_begin_marker = chars "<!-- runtimepulse:begin (managed — do not edit inside) -->"

unfoldable pub rule_end_marker : Text
unfolding chars
rule_end_marker = chars "<!-- runtimepulse:end -->"

abbrev pub line_end : Text
line_end = chars "\n"

abbrev joined : List String → Text
joined [] = []
joined (s ∷ []) = chars s
joined (s ∷ t ∷ l) = chars s ++ (line_end ++ joined (t ∷ l))

-- releaseResumeRuleBody, which has no blanks at its ends.
unfoldable pub release_resume_rule_body : Text
unfolding chars
release_resume_rule_body = joined (
    "## RuntimePulse: release-and-resume" ∷ ""
    ∷ "When you need to wait for a runtime condition (a service becoming healthy, a"
    ∷ "build finishing, a file appearing), do NOT poll, sleep, or block. Instead:" ∷ ""
    ∷ "1. Call the `create_rule` MCP tool with your own session id (pass agent +"
    ∷ "   repoPath to self-register; use oneShot:true for wake-me-once)."
    ∷ "2. If a watcher is needed, call `create_watch` AFTER the rule (a new watch"
    ∷ "   emits current state immediately, so the rule must already exist)."
    ∷ "3. End your turn. RuntimePulse resumes your session with the event as a new"
    ∷ "   prompt when the condition is met." ∷ ""
    ∷ "Use `wait_for_event` only for conditions expected within seconds." ∷ [])

-- What comes before the end marker in the block.
unfoldable pub block_head : Text
unfolding rule_begin_marker release_resume_rule_body chars
block_head = rule_begin_marker ++ (line_end ++ (release_resume_rule_body ++ line_end))

-- managedBlock
unfoldable pub managed_block : Text
unfolding block_head rule_end_marker
managed_block = block_head ++ rule_end_marker

-- What a run of mergeMarkerBlock did.
pub data Action : Type 0 where
  written updated appended unchanged would_write manual : Action

-- What the switch settles: the new text with the action, or nothing to do.
abbrev pub rebuilt : Text → ℕ → ℕ → Text
rebuilt content b e = take b content ++ (managed_block ++ drop (e + length rule_end_marker) content)

abbrev pub appended_text : Text → Text
appended_text content =
    trim_right content ++ (line_end ++ (line_end ++ (managed_block ++ line_end)))

unfoldable pub replaced : Text → ℕ → ℕ → Option (Text × Action)
replaced content b e =
    if same_text (rebuilt content b e) content then none else some (rebuilt content b e, updated)

unfoldable pub merged : Text → Option ℕ → Option ℕ → Option (Text × Action)
unfolding replaced
merged content (some b) (some e) =
    if leb b e then replaced content b e else some (appended_text content, appended)
merged content none e = some (appended_text content, appended)
merged content (some b) none = some (appended_text content, appended)

abbrev pub write_merged : String → Bool → Option (Text × Action) → Disk → Result Action × Disk
write_merged path dry_run none d = (ok unchanged, d)
write_merged path dry_run (some (out, action)) d =
    if dry_run then (ok would_write, d) else done (atomic_write path out d)
  where
    done : Result (Unit {0}) × Disk → Result Action × Disk
    done (ok _, d') = (ok action, d')
    done (err e, d') = (err e, d')

-- mergeMarkerBlock
unfoldable pub merge_marker_block : String → Bool → Disk → Result Action × Disk
unfolding merged
merge_marker_block path dry_run d = merge_found (d.files path)
  where
    merge_found : Found → Result Action × Disk
    merge_found (unreadable e) = (err e, d)
    merge_found missing = write_merged path dry_run (some (managed_block ++ line_end, written)) d
    merge_found (present content) =
        write_merged path dry_run
          (merged content (index rule_begin_marker content) (index rule_end_marker content)) d
