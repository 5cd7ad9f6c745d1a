-- ===== src/Watch/File/Truth.antt =====
-- internal/watch/file.go: what the events of a file say together.
use runtime_pulse.Prelude.{
  String, ◌≡◌, refl, ◌∙◌, Bool, true, false, not, ◌&&◌, ◌||◌, Option, none, some, List, [], ◌∷◌,
  ◌++◌, ◌==◌, inl, inr, Bool-cases, if◌then◌else◌,
}
use runtime_pulse.Watch.File.{
  FileEvent, file_created, file_changed, file_removed, Rearm, cancelled, back, FileInput, fs_event,
  quiet, watch_error, FileWatch, file_start, rearm_parent, settle_burst, on_fs_event, file_step,
  file_loop, run_file_watch,
}

-- Whether the file is there, to one who hears its events and knew whether it was there; `none` if an
-- event makes no sense then.
abbrev pub hear : Bool → FileEvent → Option Bool
hear false file_created = some true
hear true file_changed = some true
hear true file_removed = some false
hear _ _ = none

abbrev pub heard : Bool → List FileEvent → Option Bool
heard there [] = some there
heard there (ev ∷ l) = elim (hear there ev) [ none ↦ none | some there' ↦ heard there' l ]

heard-append :
    (a b : Bool) (l m : List FileEvent) → heard a l ≡ some b → heard a (l ++ m) ≡ heard b m
heard-append a b [] m h = let same : a ≡ b = cc h in rw same refl
heard-append false b (file_created ∷ l) m h = heard-append true b l m h
heard-append false b (file_changed ∷ l) m h = absurd (cc h)
heard-append false b (file_removed ∷ l) m h = absurd (cc h)
heard-append true b (file_created ∷ l) m h = absurd (cc h)
heard-append true b (file_changed ∷ l) m h = heard-append true b l m h
heard-append true b (file_removed ∷ l) m h = heard-append false b l m h

rearm-heard :
    (exists pending : Bool) (r : Rearm)
    → let (s, l) = rearm_parent (record { exists = exists; pending = pending }) r in
      heard exists l ≡ some s.exists
unfolding rearm_parent
rearm-heard true pending cancelled = refl
rearm-heard false pending cancelled = refl
rearm-heard true pending (back true) = refl
rearm-heard true pending (back false) = refl
rearm-heard false pending (back true) = refl
rearm-heard false pending (back false) = refl

burst-heard :
    (exists found : Bool)
    → let (s, l) = settle_burst (record { exists = exists; pending = true }) found in
      heard exists l ≡ some s.exists
unfolding settle_burst
burst-heard true true = refl
burst-heard true false = refl
burst-heard false true = refl
burst-heard false false = refl

step-heard :
    (abs parent : String) (s : FileWatch) (i : FileInput)
    → heard s.exists (file_step abs parent s i).1 ≡ some (file_step abs parent s i).0.exists
unfolding file_step on_fs_event
step-heard abs parent s watch_error = refl
step-heard abs parent s (quiet found) = elim (Bool-cases s.pending) [
  | inl e ↦ rw e (unfold settle_burst in burst-heard s.exists found)
  | inr e ↦ rw e refl
]
step-heard abs parent s (fs_event ev r) =
    elim (Bool-cases (ev.name == parent && (ev.removed || ev.renamed))) [
      | inl gone ↦ rw gone (rearm-heard s.exists s.pending r)
      | inr here ↦
          elim (Bool-cases (
            not (ev.name == abs) || not (ev.created || (ev.wrote || (ev.removed || ev.renamed))))) [
              | inl e ↦ rw (here, e) refl
              | inr e ↦ rw (here, e) refl
            ]
    ]

loop-heard :
    (abs parent : String) (s : FileWatch) (inputs : List FileInput)
    → heard s.exists (file_loop abs parent s inputs).1
      ≡ some (file_loop abs parent s inputs).0.exists
unfolding file_loop
loop-heard abs parent s [] = refl
loop-heard abs parent s (i ∷ inputs) =
    heard-append s.exists _ _ _ (step-heard abs parent s i)
    ∙ loop-heard abs parent (file_step abs parent s i).0 inputs

-- The events of a file watch tell the truth: to one who hears them all and takes the file to be
-- missing at first, each makes sense (a creation of a missing file, a change or a removal of one that
-- is there), and they say of the file what the watch last saw; and when a burst has gone quiet, that
-- is what os.Stat says then, whatever happened in the burst.
pub file_events_tell :
    (abs parent : String) (found : Bool) (inputs : List FileInput) (now : Bool)
    → let (s, l) = run_file_watch abs parent found inputs in
      (heard false l ≡ some s.exists)
      × ((if s.pending then (file_step abs parent s (quiet now)).0.exists else now) ≡ now)
unfolding run_file_watch file_start file_step settle_burst
file_events_tell abs parent found inputs now =
    let s = (file_loop abs parent (record { exists = found; pending = false }) inputs).0 in
    (
      heard-append false found (if found then file_created ∷ [] else []) _ (first found)
          ∙ loop-heard abs parent (record { exists = found; pending = false }) inputs,
      elim (Bool-cases s.pending) [ inl e ↦ rw e refl | inr e ↦ rw e refl ],
    )
  where
    first : (found : Bool) → heard false (if found then file_created ∷ [] else []) ≡ some found
    first true = refl
    first false = refl
