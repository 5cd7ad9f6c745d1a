-- ===== src/Watch/Manager.antt =====
-- internal/watch/manager.go: one goroutine per active watch.
pub mod Handles
pub mod History
use runtime_pulse.Prelude.{
  ℕ, suc, String, Bool, true, false, not, ◌&&◌, Option, none, some, List, [], ◌∷◌, ◌++◌, map,
  filter, any, head?, Result, ok, err, nat_eq, ◌==◌, if◌then◌else◌, str_append,
}
use runtime_pulse.Prelude.Order.{str_leb, sort_by}
use runtime_pulse.Watch.{Watch, validate_type}

-- A goroutine: its watch, its handle, and whether its context is cancelled.
pub record Watcher : Type 0 where
  pub id : String
  pub handle : ℕ
  pub cancelled : Bool

-- `ready` says whether Run has set the context. A handle is the number of the spawn.
pub record Manager : Type 0 where
  pub ready : Bool
  pub running : List (String × ℕ)
  pub next : ℕ
  pub alive : List Watcher

abbrev pub new_manager : Manager
new_manager = record { ready = false; running = []; next = 0; alive = [] }

abbrev pub is_entry : String → String × ℕ → Bool
is_entry id e = e.0 == id

abbrev pub names : String → ℕ → String × ℕ → Bool
names id handle e = e.0 == id && nat_eq e.1 handle

-- The new entry of the map, and the goroutine.
unfoldable pub spawn : String → Manager → Manager
spawn id m = record m {
  running = m.running ++ (id, m.next) ∷ [];
  next = suc m.next;
  alive = m.alive ++ record { id = id; handle = m.next; cancelled = false } ∷ [];
}

-- Manager.Start; `bad_type` is the text of ValidateType's error.
unfoldable pub start : (String → String) → Watch → Manager → Result (Unit {0}) × Manager
unfolding spawn
start bad_type w m =
    if not (validate_type w.type)
    then (err (bad_type w.type), m)
    else if not m.ready
    then (err "manager not running", m)
    else if any (is_entry w.id) m.running
    then (ok tt, m)
    else (ok tt, spawn w.id m)

-- Manager.Run: an invalid watch is passed over.
unfoldable pub start_all : (String → String) → List Watch → Manager → Manager
start_all bad_type [] m = m
start_all bad_type (w ∷ ws) m = start_all bad_type ws (start bad_type w m).1

unfoldable pub run_manager : (String → String) → List Watch → Manager → Manager
run_manager bad_type persisted m = start_all bad_type persisted (record m { ready = true })

-- The handle that the map holds for an id.
unfoldable pub handle_of : String → List (String × ℕ) → Option ℕ
handle_of id [] = none
handle_of id (e ∷ l) = if is_entry id e then some e.1 else handle_of id l

-- h.cancel()
abbrev pub is_watcher : String → ℕ → Watcher → Bool
is_watcher id handle w = w.id == id && nat_eq w.handle handle

abbrev pub cancel_handle : String → ℕ → Watcher → Watcher
cancel_handle id handle w = if is_watcher id handle w then record w { cancelled = true } else w

unfoldable pub stop_handle : String → Option ℕ → Manager → Manager
stop_handle id none m = m
stop_handle id (some handle) m = record m {
  running = filter (λ e. not (is_entry id e)) m.running;
  alive = map (cancel_handle id handle) m.alive;
}

-- Manager.Stop
unfoldable pub stop : String → Manager → Manager
unfolding stop_handle handle_of
stop id m = stop_handle id (handle_of id m.running) m

-- The end of a goroutine: its deferred cleanup.
unfoldable pub cleanup : String → ℕ → Manager → Manager
cleanup id handle m = record m {
  running = filter (λ e. not (names id handle e)) m.running;
  alive = filter (λ w. not (is_watcher id handle w)) m.alive;
}

-- RunningIDs
unfoldable pub running_ids : Manager → List String
running_ids m = sort_by str_leb (map (λ e. e.0) m.running)
