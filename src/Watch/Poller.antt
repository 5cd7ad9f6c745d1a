-- ===== src/Watch/Poller.antt =====
-- internal/watch/poller.go: RunPoller, as a machine that is fed the probes' answers with their times.
pub mod Stability
use runtime_pulse.Prelude.{
  ℕ, ◌-◌, ℤ, pos, negsuc, Bool, true, false, String, Option, none, some, List, [], ◌∷◌, leb,
  if◌then◌else◌,
}
use runtime_pulse.Watch.{Config}

-- `current` and `pending` with `pendingSince`.
pub record Poller : Type 0 where
  pub current : Bool
  pub pending : Option (Bool × ℕ)

abbrev pub same : Bool → Bool → Bool
same true b = b
same false true = false
same false false = true

-- `now.Sub(pendingSince) >= cfg.StabilityThreshold`; the clock is monotonic.
unfoldable pub stable : Config → ℕ → ℕ → Bool
stable cfg since now = elim cfg.stability_threshold [
  | pos d ↦ leb d (now - since)
  | negsuc d ↦ true
]

-- Since when the answer has been seen: a new flap starts now.
unfoldable pub flap_since : Option (Bool × ℕ) → Bool → ℕ → ℕ
flap_since none got now = now
flap_since (some (v, since)) got now = if same v got then since else now

-- One turn of the loop, with the state that is emitted, if any.
unfoldable pub tick : Config → Poller → Bool → ℕ → Poller × Option Bool
unfolding stable flap_since
tick cfg p got now =
    let since = flap_since p.pending got now in
    if same got p.current
    then (record p { pending = none }, none)
    else if stable cfg since now
    then (record { current = got; pending = none }, some got)
    else (record p { pending = some (got, since) }, none)

abbrev pub emitted_by : Option Bool → List Bool → List Bool
emitted_by none l = l
emitted_by (some b) l = b ∷ l

-- The loop, until the context is cancelled.
unfoldable pub ticks : Config → Poller → List (Bool × ℕ) → List Bool
ticks cfg p [] = []
ticks cfg p ((got, now) ∷ rest) =
    emitted_by (tick cfg p got now).1 (ticks cfg (tick cfg p got now).0 rest)

-- RunPoller: the first answer is emitted at once.
unfoldable pub run_poller : Config → Bool → List (Bool × ℕ) → List Bool
run_poller cfg first answers =
    first ∷ ticks cfg (record { current = first; pending = none }) answers

-- emitState: the event's type.
abbrev pub event_type_of : String → String → Bool → String
event_type_of pos_type neg_type up = if up then pos_type else neg_type
