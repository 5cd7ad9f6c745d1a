-- ===== src/Watch/Git/Spacing.antt =====
-- internal/watch/git.go: the debounce.
use runtime_pulse.Prelude.{
  ℕ, ◌-◌, String, ◌≡◌, Bool, true, false, not, ◌||◌, Option, none, some, List, [], ◌∷◌, ◌++◌, leb,
  ◌==◌, arith, inl, inr, Bool-cases,
}
use runtime_pulse.Core.{Payload}
use runtime_pulse.Watch.{Config}
use runtime_pulse.Watch.Git.{
  GitEvent, GitEmission, git_debounce, git_event, repeats, emitted_git, git_step, git_loop,
  run_git_watch,
}

-- An event of the same type as the one before it comes no sooner than the debounce allows.
abbrev pub apart : ℕ → String → ℕ → GitEmission → Bool
apart debounce last at e = not (e.type == last) || leb debounce (e.at - at)

abbrev pub Spaced : ℕ → List GitEmission → Type 0
Spaced debounce [] = Unit
Spaced debounce (e ∷ []) = Unit
Spaced debounce (e ∷ f ∷ l) = (apart debounce e.type e.at f ≡ true) × Spaced debounce (f ∷ l)

-- The same after an event that was emitted before.
abbrev SpacedAfter : ℕ → Option (String × ℕ) → List GitEmission → Type 0
SpacedAfter debounce last [] = Unit
SpacedAfter debounce none (e ∷ l) = Spaced debounce (e ∷ l)
SpacedAfter debounce (some (last, at)) (e ∷ l) =
    (apart debounce last at e ≡ true) × Spaced debounce (e ∷ l)

cons-Spaced :
    (debounce : ℕ) (e : GitEmission) (l : List GitEmission)
    → SpacedAfter debounce (some (e.type, e.at)) l
    → Spaced debounce (e ∷ l)
cons-Spaced debounce e [] h = tt
cons-Spaced debounce e (f ∷ l) h = h

after-Spaced :
    (debounce : ℕ) (last : Option (String × ℕ)) (e : GitEmission) (l : List GitEmission)
    → repeats debounce last e.type e.at ≡ false
    → SpacedAfter debounce (some (e.type, e.at)) l
    → SpacedAfter debounce last (e ∷ l)
unfolding repeats
after-Spaced debounce none e l n h = cons-Spaced debounce e l h
after-Spaced debounce (some (last, at)) e l n h = (ground arith, cons-Spaced debounce e l h)

emitted-SpacedAfter :
    (debounce : ℕ) (last : Option (String × ℕ)) (now : ℕ) (o : Option (String × Payload))
    (rest : Option (String × ℕ) → List GitEmission)
    → ((last' : Option (String × ℕ)) → SpacedAfter debounce last' (rest last'))
    → let (last', l) = emitted_git debounce last now o in
      SpacedAfter debounce last (l ++ rest last')
emitted-SpacedAfter debounce last now none rest h = h last
emitted-SpacedAfter debounce last now (some (type, payload)) rest h =
    elim (Bool-cases (repeats debounce last type now)) [
      | inl e ↦ rw e (h last)
      | inr e ↦ rw e (
          after-Spaced debounce last (record { type = type; payload = payload; at = now })
            (rest (some (type, now))) e (h (some (type, now))))
    ]

loop-SpacedAfter :
    (git_dir : String) (debounce : ℕ) (events : List (GitEvent × ℕ)) (last : Option (String × ℕ))
    → SpacedAfter debounce last (git_loop git_dir debounce last events)
unfolding git_loop git_step
loop-SpacedAfter git_dir debounce [] none = tt
loop-SpacedAfter git_dir debounce [] (some x) = tt
loop-SpacedAfter git_dir debounce ((ev, now) ∷ events) last =
    emitted-SpacedAfter debounce last now (git_event git_dir ev)
      (λ last'. git_loop git_dir debounce last' events)
      (λ last'. loop-SpacedAfter git_dir debounce events last')

none-Spaced :
    (debounce : ℕ) (l : List GitEmission) → SpacedAfter debounce none l → Spaced debounce l
none-Spaced debounce [] h = tt
none-Spaced debounce (e ∷ l) h = h

-- Of the events that a git watch emits, two of the same type that follow each other are at least the
-- debounce apart, whatever fsnotify reports.
pub git_events-Spaced :
    (cfg : Config) (git_dir : String) (events : List (GitEvent × ℕ))
    → Spaced (git_debounce cfg) (run_git_watch cfg git_dir events)
unfolding run_git_watch
git_events-Spaced cfg git_dir events =
    none-Spaced (git_debounce cfg) _ (loop-SpacedAfter git_dir (git_debounce cfg) events none)
