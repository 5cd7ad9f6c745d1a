-- ===== src/Watch/Git.antt =====
-- internal/watch/git.go: RunGitWatch, as a machine that is fed the events of fsnotify with their times.
pub mod Spacing
use runtime_pulse.Prelude.{
  ℕ, ◌-◌, String, Bool, false, ◌&&◌, ◌||◌, Option, none, some, List, [], ◌∷◌, ◌++◌, ltb, ◌==◌,
  if◌then◌else◌,
}
use runtime_pulse.Core.{Payload}
use runtime_pulse.Watch.{Config, positive_or}

-- filepath.Base and Dir of an event's name, whether it contains refs/heads, and the branch that HEAD
-- names when it is read.
pub record GitEvent : Type 0 where
  pub base : String
  pub dir : String
  pub in_heads : Bool
  pub branch : String

-- The debounce: 300 milliseconds by default.
abbrev pub git_debounce : Config → ℕ
git_debounce cfg = positive_or 300000000 cfg.stability_threshold

-- The switch: the type and the payload of the event, if it is one.
unfoldable pub git_event : String → GitEvent → Option (String × Payload)
git_event git_dir ev =
    if ev.base == "HEAD" && ev.dir == git_dir
    then some ("git.branch.changed", ("branch", ev.branch) ∷ [])
    else if ev.base == "packed-refs" || ev.in_heads
    then some ("git.ref.changed", ("ref", ev.base) ∷ [])
    else none

pub record GitEmission : Type 0 where
  pub type : String
  pub payload : Payload
  pub at : ℕ

-- lastType and lastAt; the clock is monotonic.
unfoldable pub repeats : ℕ → Option (String × ℕ) → String → ℕ → Bool
repeats debounce none type now = false
repeats debounce (some (last, at)) type now = type == last && ltb (now - at) debounce

abbrev pub emitted_git :
    ℕ → Option (String × ℕ) → ℕ → Option (String × Payload) → Option (String × ℕ) × List GitEmission
emitted_git debounce last now none = (last, [])
emitted_git debounce last now (some (type, payload)) =
    if repeats debounce last type now
    then (last, [])
    else (some (type, now), record { type = type; payload = payload; at = now } ∷ [])

-- A turn of the loop.
unfoldable pub git_step :
    String → ℕ → Option (String × ℕ) → GitEvent → ℕ → Option (String × ℕ) × List GitEmission
git_step git_dir debounce last ev now = emitted_git debounce last now (git_event git_dir ev)

unfoldable pub git_loop : String → ℕ → Option (String × ℕ) → List (GitEvent × ℕ) → List GitEmission
git_loop git_dir debounce last [] = []
git_loop git_dir debounce last ((ev, now) ∷ rest) =
    let (last', l) = git_step git_dir debounce last ev now in
    l ++ git_loop git_dir debounce last' rest

-- RunGitWatch, on a directory that is a repository.
unfoldable pub run_git_watch : Config → String → List (GitEvent × ℕ) → List GitEmission
run_git_watch cfg git_dir events = git_loop git_dir (git_debounce cfg) none events
