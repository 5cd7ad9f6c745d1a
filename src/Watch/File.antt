-- ===== src/Watch/File.antt =====
-- internal/watch/file.go: RunFileWatch, as a machine that is fed what its select receives.
pub mod Truth
use runtime_pulse.Prelude.{
  ℕ, String, Bool, true, false, not, ◌&&◌, ◌||◌, List, [], ◌∷◌, ◌++◌, ◌==◌, if◌then◌else◌,
}
use runtime_pulse.Watch.{Config, positive_or}

pub data FileEvent : Type 0 where
  file_created file_changed file_removed : FileEvent

abbrev pub file_event_type : FileEvent → String
file_event_type file_created = "file.created"
file_event_type file_changed = "file.changed"
file_event_type file_removed = "file.removed"

-- The operations of an event of fsnotify.
pub record FsEvent : Type 0 where
  pub name : String
  pub created : Bool
  pub wrote : Bool
  pub removed : Bool
  pub renamed : Bool

-- How the polling for a parent that vanished ends: the context is cancelled, or the watch is armed
-- again, with what os.Stat then says of the file.
pub data Rearm : Type 0 where
  cancelled : Rearm
  back : Bool → Rearm

-- What the select receives: an event, with how a rearming would end; the timer, with what os.Stat
-- says; or an error of the watcher.
pub data FileInput : Type 0 where
  fs_event : FsEvent → Rearm → FileInput
  quiet : Bool → FileInput
  watch_error : FileInput

-- `exists`, and whether `timerC` is set.
pub record FileWatch : Type 0 where
  pub exists : Bool
  pub pending : Bool

-- The debounce: half a second by default.
abbrev pub file_debounce : Config → ℕ
file_debounce cfg = positive_or 500000000 cfg.stability_threshold

-- The initial check.
unfoldable pub file_start : Bool → FileWatch × List FileEvent
file_start found =
    (record { exists = found; pending = false }, if found then file_created ∷ [] else [])

abbrev rearmed : FileWatch → Rearm → FileWatch × List FileEvent
rearmed s cancelled = (record s { exists = false }, [])
rearmed s (back found) = (record s { exists = found }, if found then file_created ∷ [] else [])

-- rearmParent
unfoldable pub rearm_parent : FileWatch → Rearm → FileWatch × List FileEvent
rearm_parent s r =
    let (s', l) = rearmed s r in (s', (if s.exists then file_removed ∷ [] else []) ++ l)

-- The switch after a burst, on what is there now and what was there.
abbrev settled_events : Bool → Bool → List FileEvent
settled_events true false = file_created ∷ []
settled_events true true = file_changed ∷ []
settled_events false true = file_removed ∷ []
settled_events false false = []

unfoldable pub settle_burst : FileWatch → Bool → FileWatch × List FileEvent
settle_burst s found = (record { exists = found; pending = false }, settled_events found s.exists)

unfoldable pub on_fs_event :
    String → String → FileWatch → FsEvent → Rearm → FileWatch × List FileEvent
on_fs_event abs parent s ev r =
    if ev.name == parent && (ev.removed || ev.renamed)
    then rearm_parent s r
    else if not (ev.name == abs) || not (ev.created || (ev.wrote || (ev.removed || ev.renamed)))
    then (s, [])
    else (record s { pending = true }, [])

-- A turn of the loop; the timer fires only while a burst is pending.
unfoldable pub file_step : String → String → FileWatch → FileInput → FileWatch × List FileEvent
file_step abs parent s (fs_event ev r) = on_fs_event abs parent s ev r
file_step abs parent s (quiet found) = if s.pending then settle_burst s found else (s, [])
file_step abs parent s watch_error = (s, [])

unfoldable pub file_loop : String → String → FileWatch → List FileInput → FileWatch × List FileEvent
file_loop abs parent s [] = (s, [])
file_loop abs parent s (i ∷ inputs) =
    let (s', l) = file_step abs parent s i in
    let (s'', rest) = file_loop abs parent s' inputs in (s'', l ++ rest)

-- RunFileWatch, from the initial check on.
unfoldable pub run_file_watch : String → String → Bool → List FileInput → FileWatch × List FileEvent
run_file_watch abs parent found inputs =
    let (s, l) = file_start found in
    let (s', rest) = file_loop abs parent s inputs in (s', l ++ rest)
