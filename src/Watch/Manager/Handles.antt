-- ===== src/Watch/Manager/Handles.antt =====
-- internal/watch/manager.go: the map of handles and the goroutines that are alive.
use runtime_pulse.Prelude.{
  ℕ, String, ◌⊎◌, ◌≡◌, refl, Bool, true, false, not, ◌&&◌, ◌||◌, some, List, [], ◌∷◌, ◌++◌, map,
  filter, any, any-append, All, In, nat_eq, ◌==◌, eq_iff, arith, inl, inr, Bool-cases,
}
use runtime_pulse.Watch.{Watch}
use runtime_pulse.Watch.Manager.{
  Watcher, is_watcher, Manager, new_manager, is_entry, names, spawn, start, handle_of,
  cancel_handle, stop, cleanup,
}

-- What happens to a manager; a goroutine that is alive may end at any time.
pub data ManagerStep (m : Manager) : Manager → Type 0 where
  readied : ManagerStep m (record m { ready = true })
  started : (bad_type : String → String) (w : Watch) → ManagerStep m (start bad_type w m).1
  stopped : (id : String) → ManagerStep m (stop id m)
  ended : (w : Watcher) → In w m.alive → ManagerStep m (cleanup w.id w.handle m)

pub data ManagerHistory : Manager → Type 0 where
  made : ManagerHistory new_manager
  after : {m m' : Manager} → ManagerHistory m → ManagerStep m m' → ManagerHistory m'

abbrev pub UniqueEntries : List (String × ℕ) → Type 0
UniqueEntries [] = Unit
UniqueEntries (e ∷ l) = (any (is_entry e.0) l ≡ false) × UniqueEntries l

-- A goroutine of the entry that is not cancelled.
abbrev pub runs : String × ℕ → Watcher → Bool
runs e w = is_watcher e.0 e.1 w && not w.cancelled

-- A goroutine that is cancelled, or that the map names.
abbrev pub owned : List (String × ℕ) → Watcher → Bool
owned l w = w.cancelled || any (names w.id w.handle) l

pub record IsManaged (m : Manager) : Type 0 where
  pub unique : UniqueEntries m.running
  pub live : All (λ e. any (runs e) m.alive ≡ true) m.running
  pub no_orphan : All (λ w. owned m.running w ≡ true) m.alive

pub start_cases :
    (bad_type : String → String) (w : Watch) (m : Manager)
    → ((start bad_type w m).1.running ≡ m.running) × ((start bad_type w m).1.alive ≡ m.alive)
      ⊎ (((start bad_type w m).1 ≡ spawn w.id m) × (any (is_entry w.id) m.running ≡ false))
unfolding start
start_cases bad_type w m = ground arith

pub UniqueEntries-snoc :
    (e : String × ℕ) (l : List (String × ℕ))
    → any (is_entry e.0) l ≡ false
    → UniqueEntries l
    → UniqueEntries (l ++ e ∷ [])
UniqueEntries-snoc e [] h u = (refl, tt)
UniqueEntries-snoc e (x ∷ l) h u = (
  rw (any-append (is_entry x.0) l (e ∷ [])) (ground (arith, u.0, eq_iff e.0 x.0, eq_iff x.0 e.0)),
  UniqueEntries-snoc e l (ground arith) u.1,
)

any-is_entry-filter :
    (p : String × ℕ → Bool) (id : String) (l : List (String × ℕ))
    → any (is_entry id) l ≡ false
    → any (is_entry id) (filter p l) ≡ false
any-is_entry-filter p id [] h = refl
any-is_entry-filter p id (x ∷ l) h = ground (arith, any-is_entry-filter p id l)

pub UniqueEntries-filter :
    (p : String × ℕ → Bool) (l : List (String × ℕ)) → UniqueEntries l → UniqueEntries (filter p l)
UniqueEntries-filter p [] u = tt
UniqueEntries-filter p (x ∷ l) u = elim (Bool-cases (p x)) [
  | inl e ↦ rw e (any-is_entry-filter p x.0 l u.0, UniqueEntries-filter p l u.1)
  | inr e ↦ rw e (UniqueEntries-filter p l u.1)
]

pub any-runs-cancel :
    (e : String × ℕ) (id : String) (handle : ℕ) (l : List Watcher)
    → is_entry id e ≡ false
    → any (runs e) (map (cancel_handle id handle) l) ≡ any (runs e) l
any-runs-cancel e id handle [] h = refl
any-runs-cancel e id handle (w ∷ l) h =
    ground (arith, any-runs-cancel e id handle l h, eq_iff e.0 id, eq_iff w.id id, eq_iff w.id e.0)

pub any-runs-cleanup :
    (e : String × ℕ) (id : String) (handle : ℕ) (l : List Watcher)
    → names id handle e ≡ false
    → any (runs e) (filter (λ w. not (is_watcher id handle w)) l) ≡ any (runs e) l
any-runs-cleanup e id handle [] h = refl
any-runs-cleanup e id handle (w ∷ l) h =
    ground (arith, any-runs-cleanup e id handle l h, eq_iff e.0 id, eq_iff w.id id, eq_iff w.id e.0)

pub any-names-cleanup :
    (w_id : String) (w_handle : ℕ) (id : String) (handle : ℕ) (l : List (String × ℕ))
    → (w_id == id && nat_eq w_handle handle) ≡ false
    → any (names w_id w_handle) (filter (λ e. not (names id handle e)) l)
      ≡ any (names w_id w_handle) l
any-names-cleanup w_id w_handle id handle [] h = refl
any-names-cleanup w_id w_handle id handle (e ∷ l) h = ground (
  arith,
  any-names-cleanup w_id w_handle id handle l h,
  eq_iff e.0 id,
  eq_iff w_id id,
  eq_iff e.0 w_id,
)

pub any-names-stop :
    (w_id : String) (w_handle : ℕ) (id : String) (l : List (String × ℕ))
    → (w_id == id) ≡ false
    → any (names w_id w_handle) (filter (λ e. not (is_entry id e)) l) ≡ any (names w_id w_handle) l
any-names-stop w_id w_handle id [] h = refl
any-names-stop w_id w_handle id (e ∷ l) h =
    ground
      (arith, any-names-stop w_id w_handle id l h, eq_iff e.0 id, eq_iff w_id id, eq_iff e.0 w_id)

names-is_entry :
    (id : String) (handle : ℕ) (l : List (String × ℕ))
    → any (is_entry id) l ≡ false
    → any (names id handle) l ≡ false
names-is_entry id handle [] h = refl
names-is_entry id handle (e ∷ l) h = ground (arith, names-is_entry id handle l)

-- With unique entries the map has no other handle for the id.
pub handle_of-names :
    (id : String) (handle found : ℕ) (l : List (String × ℕ))
    → UniqueEntries l
    → any (names id handle) l ≡ true
    → handle_of id l ≡ some found
    → handle ≡ found
unfolding handle_of
handle_of-names id handle found [] u h e = cc
handle_of-names id handle found (x ∷ l) u h e =
    ground
      (arith, handle_of-names id handle found l u.1, eq_iff x.0 id, names-is_entry id handle l, u.0)
