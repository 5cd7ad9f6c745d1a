-- ===== src/Adapter/Summary.antt =====
-- internal/adapter/run.go: the size of the summaries that runCLI gives to the record.
use Prim.Native.Nat.{compare, Ordering}
use Prim.Native.Char.{Char, len_utf8}
use Prim.Native.String.slice.{cons-zero, nil}
use Prim.Native.String.len.{cons, nil as no_bytes}
use Prim.Native.String.{len, slice, fits, [] as empty, ◌∷◌ as char_cons}
use text.Mathlib.TextPositions.{len-append}
use runtime_pulse.Prelude.{
  ℕ, ◌+◌, ◌-◌, ◌≤◌, String, ◌≡◌, refl, not, ◌&&◌, Option, none, some, List, [], ◌∷◌, All, subst,
  ◌==◌, arith, inl, inr, Bool-cases, str_append,
}
use runtime_pulse.Dispatch.{Resume, Registry, adapter_for}
use runtime_pulse.Core.{Session}
use runtime_pulse.Adapter.{
  truncate, or_trimmed, agents, claude_resume, codex_resume, cursor_resume, open_code_resume,
  Machine, Ending, succeeded, exited, cut, broken, summarize, run_cli, parse_result_json,
  parse_plain,
}

slice_cons :
    (c : Char) (s : String) (b : ℕ)
    → slice (char_cons c s) 0 b ≡ fits (compare (len_utf8 c) b) c (slice s 0 (b - len_utf8 c))
slice_cons c s b = λ j. cons-zero c s b j

len_cons : (c : Char) (s : String) → len (char_cons c s) ≡ len_utf8 c + len s
len_cons c s = λ j. cons c s j

slice_nil : (b : ℕ) → slice empty 0 b ≡ empty
slice_nil b = λ j. nil 0 b j

len-empty : len empty ≡ 0
len-empty = λ j. no_bytes j

len-fits_at :
    (o : Ordering) (c : Char) (s : String) (b : ℕ)
    → compare (len_utf8 c) b ≡ o
    → len s ≤ b - len_utf8 c
    → len (fits o c s) ≤ b
len-fits_at Ordering.lt c s b e h = rw (len_cons c s) (ground arith)
len-fits_at Ordering.eq c s b e h = rw (len_cons c s) (ground arith)
len-fits_at Ordering.gt c s b e h = rw len-empty (omega arith)

len-fits :
    (c : Char) (s : String) (b : ℕ)
    → len s ≤ b - len_utf8 c
    → len (fits (compare (len_utf8 c) b) c s) ≤ b
len-fits c s b h = len-fits_at (compare (len_utf8 c) b) c s b refl h

len-slice : (s : String) (b : ℕ) → len (slice s 0 b) ≤ b
len-slice empty b = rw (slice_nil b, len-empty) (omega arith)
len-slice (char_cons c s) b =
    rw (slice_cons c s b) (len-fits c (slice s 0 (b - len_utf8 c)) b (len-slice s (b - len_utf8 c)))

len-truncate : (s : String) → len (truncate s) ≤ 500
unfolding truncate
len-truncate s = ground (arith, len-slice s 500)

len-summarize :
    (parse : String → String) (out err_tail : String) (e : Ending)
    → len (parse out) ≤ 500
    → len err_tail ≤ 500
    → len (summarize parse out err_tail e).1.0 ≤ 531
unfolding summarize
len-summarize parse out err_tail succeeded h k =
    elim (Bool-cases ((parse out == "") && not (err_tail == ""))) [
      | inl e ↦ rw e (rw (len-append "(stderr) " err_tail) (omega arith))
      | inr e ↦ rw e (omega arith)
    ]
len-summarize parse out err_tail (exited code) h k = ground arith
len-summarize parse out err_tail cut h k = elim (Bool-cases (err_tail == "")) [
  | inl e ↦ rw e (omega arith)
  | inr e ↦ rw e (
      rw
        (
          len-append "resume timed out or cancelled" (str_append ": " err_tail),
          len-append ": " err_tail,
        )
        (omega arith))
]
len-summarize parse out err_tail (broken e) h k = omega arith

len-parse_plain : (m : Machine) (out : String) → len (parse_plain m out) ≤ 500
len-parse_plain m out = len-truncate (m.trim out)

len-or_trimmed : (m : Machine) (out : String) (o : Option String) → len (or_trimmed m out o) ≤ 500
len-or_trimmed m out none = len-truncate (m.trim out)
len-or_trimmed m out (some r) = elim (Bool-cases (r == "")) [
  | inl e ↦ rw e (len-truncate (m.trim out))
  | inr e ↦ rw e (len-truncate r)
]

len-run_cli :
    (m : Machine) (bin : String) (args : List String) (dir : String) (parse : String → String)
    → ((out : String) → len (parse out) ≤ 500)
    → len (run_cli m bin args dir parse).0.output_summary ≤ 531
unfolding run_cli
len-run_cli m bin args dir parse h =
    let ran = m.run bin args dir in
    len-summarize parse ran.stdout (truncate (m.trim ran.stderr)) ran.ending (h ran.stdout)
      (len-truncate (m.trim ran.stderr))

abbrev IsBounded : Resume → Type 0
IsBounded resume = (s : Session) (prompt : String) → len (resume s prompt).0.output_summary ≤ 531

adapter_for-All :
    (P : Resume → Type 0) (reg : Registry) (agent : String) (resume : Resume)
    → All (λ e. P e.1) reg
    → adapter_for reg agent ≡ some resume
    → P resume
unfolding adapter_for
adapter_for-All P [] agent resume h e = absurd (cc e)
adapter_for-All P ((name, r) ∷ reg) agent resume h e = elim (Bool-cases (name == agent)) [
  | inl q ↦
      let found : some r ≡ some resume = rw q at e in
      let same : r ≡ resume = cc found in subst P same h.0
  | inr n ↦ adapter_for-All P reg agent resume h.1 (rw n at e)
]

len-parse_result_json : (m : Machine) (out : String) → len (parse_result_json m out) ≤ 500
unfolding parse_result_json
len-parse_result_json m out = len-or_trimmed m out (m.result_field out)

agents-IsBounded : (m : Machine) → All (λ e. IsBounded e.1) (agents m)
unfolding agents claude_resume codex_resume cursor_resume open_code_resume
agents-IsBounded m =
    let json = len-parse_result_json m in
    let plain = len-parse_plain m in
    (
      λ s prompt. len-run_cli m _ _ _ (parse_result_json m) json,
      (
        λ s prompt. len-run_cli m _ _ _ (parse_result_json m) json,
        (
          λ s prompt. len-run_cli m _ _ _ (parse_plain m) plain,
          (λ s prompt. len-run_cli m _ _ _ (parse_plain m) plain, tt),
        ),
      ),
    )

-- Whatever an agent prints and however its run ends, the summary that each adapter of the daemon
-- gives to the record has 531 bytes at most: the 500 of the limit and the text about a cancellation.
pub agent_summary_bounds :
    (m : Machine) (agent : String) (resume : Resume) (s : Session) (prompt : String)
    → adapter_for (agents m) agent ≡ some resume
    → len (resume s prompt).0.output_summary ≤ 531
agent_summary_bounds m agent resume s prompt h =
    adapter_for-All IsBounded (agents m) agent resume (agents-IsBounded m) h s prompt
