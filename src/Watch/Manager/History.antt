-- ===== src/Watch/Manager/History.antt =====
-- internal/watch/manager.go: histories of the manager.
use runtime_pulse.Prelude.{
  ℕ, String, subst, ◌≡◌, refl, true, false, not, Option, none, some, filter, any, any-append,
  All-append, All-map, All-of_map, All-of_In, All-In, In-filter, ◌==◌, eq_refl, eq_iff, arith, inl,
  inr, Bool-cases,
}
use runtime_pulse.Watch.Manager.{
  Watcher, is_watcher, Manager, is_entry, names, spawn, handle_of, cancel_handle, stop_handle, stop,
  cleanup,
}
use runtime_pulse.Watch.Manager.Handles.{
  ManagerStep, readied, started, stopped, ended, ManagerHistory, made, after, runs, owned,
  IsManaged, start_cases, UniqueEntries-snoc, UniqueEntries-filter, any-runs-cancel,
  any-runs-cleanup, any-names-cleanup, any-names-stop, handle_of-names,
}

spawn-IsManaged :
    (id : String) (m : Manager)
    → any (is_entry id) m.running ≡ false
    → IsManaged m
    → IsManaged (spawn id m)
unfolding spawn
spawn-IsManaged id m new k = record {
  unique = UniqueEntries-snoc (id, m.next) m.running new k.unique;
  live =
      All-append _ m.running _
        (All-map m.running
          (λ e (h : any (runs e) m.alive ≡ true). rw (any-append (runs e) m.alive _) (ground arith))
          k.live)
        (rw (any-append (runs (id, m.next)) m.alive _) (ground (arith, eq_refl id)), tt);
  no_orphan =
      All-append _ m.alive _
        (All-map m.alive
          (λ w (h : owned m.running w ≡ true).
            rw (any-append (names w.id w.handle) m.running _) (ground arith))
          k.no_orphan)
        (rw (any-append (names id m.next) m.running _) (ground (arith, eq_refl id)), tt);
}

stop-IsManaged :
    (id : String) (found : Option ℕ) (m : Manager)
    → handle_of id m.running ≡ found
    → IsManaged m
    → IsManaged (stop_handle id found m)
unfolding stop_handle
stop-IsManaged id none m h k = k
stop-IsManaged id (some handle) m h k = record {
  unique = UniqueEntries-filter _ m.running k.unique;
  live = All-of_In _ _ λ e i.
      let (there, other) = (In-filter (λ e. not (is_entry id e)) e m.running).0 i in
      rw (any-runs-cancel e id handle m.alive (ground arith))
        (All-In (λ e. any (runs e) m.alive ≡ true) e m.running k.live there);
  no_orphan = All-of_map _ _ (cancel_handle id handle) m.alive (λ w o. owner w o) k.no_orphan;
}
  where
    owner :
        (w : Watcher)
        → owned m.running w ≡ true
        → owned (filter (λ e. not (is_entry id e)) m.running) (cancel_handle id handle w) ≡ true
    owner w o = elim (Bool-cases (w.id == id)) [
      | inr other ↦ ground (arith, any-names-stop w.id w.handle id m.running other)
      | inl own ↦ elim (Bool-cases w.cancelled) [
        | inl over ↦ ground arith
        | inr live ↦
            let named : any (names id w.handle) m.running ≡ true =
              subst (λ s. any (names s w.handle) m.running ≡ true) ((eq_iff w.id id).0 own)
                (rw live at o) in
            let same = handle_of-names id w.handle handle m.running k.unique named h in ground arith
      ]
    ]

cleanup-IsManaged : (w : Watcher) (m : Manager) → IsManaged m → IsManaged (cleanup w.id w.handle m)
unfolding cleanup
cleanup-IsManaged w m k = record {
  unique = UniqueEntries-filter _ m.running k.unique;
  live = All-of_In _ _ λ e i.
      let (there, other) = (In-filter (λ e. not (names w.id w.handle e)) e m.running).0 i in
      rw (any-runs-cleanup e w.id w.handle m.alive (ground arith))
        (All-In (λ e. any (runs e) m.alive ≡ true) e m.running k.live there);
  no_orphan = All-of_In _ _ λ x i.
      let (there, other) = (In-filter (λ x. not (is_watcher w.id w.handle x)) x m.alive).0 i in
      let o = All-In (λ x. owned m.running x ≡ true) x m.alive k.no_orphan there in
      ground (arith, any-names-cleanup x.id x.handle w.id w.handle m.running);
}

ManagerStep-IsManaged : (m m' : Manager) → ManagerStep m m' → IsManaged m → IsManaged m'
unfolding stop
ManagerStep-IsManaged m m' readied k = record {
  unique = k.unique;
  live = k.live;
  no_orphan = k.no_orphan;
}
ManagerStep-IsManaged m m' (started bad_type w) k = elim (start_cases bad_type w m) [
  | inl (r, a) ↦ record {
    unique = rw r k.unique;
    live = rw (r, a) k.live;
    no_orphan = rw (r, a) k.no_orphan;
  }
  | inr (e, new) ↦ rw e (spawn-IsManaged w.id m new k)
]
ManagerStep-IsManaged m m' (stopped id) k = stop-IsManaged id (handle_of id m.running) m refl k
ManagerStep-IsManaged m m' (ended w i) k = cleanup-IsManaged w m k

-- In every history of the manager, an id has at most one entry in the map; each entry has a
-- goroutine that is alive and not cancelled, so that the cleanup of an older goroutine of the same id
-- has not removed it; and each goroutine that is not cancelled is named by an entry, so that it can
-- be stopped.
pub ManagerHistory-IsManaged : (m : Manager) → ManagerHistory m → IsManaged m
ManagerHistory-IsManaged m made = record { unique = tt; live = tt; no_orphan = tt }
ManagerHistory-IsManaged m' (after {m} h s) =
    ManagerStep-IsManaged m m' s (ManagerHistory-IsManaged m h)
