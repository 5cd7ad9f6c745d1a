-- ===== src/Dispatch/Workers/Sessions.antt =====
-- scan of internal/dispatch/dispatcher.go: the workers and the sessions with work.
use runtime_pulse.Prelude.{
  String, ◌≡◌, refl, true, false, not, ◌||◌, List, [], ◌∷◌, ◌++◌, map, any, any-append, filter, In,
  In-filter, ◌==◌, eq_refl, eq_iff, arith, inl, inr, Bool-cases,
}
use runtime_pulse.Prelude.Order.{In-sort_by, str_leb}
use runtime_pulse.Core.{Continuation}
use runtime_pulse.Store.Tables.{Db}
use runtime_pulse.Store.Sql.{healthy, exec}
use runtime_pulse.Store.Continuations.{
  is_pending, distinct, sessions_with_work, pending_sessions, waits_in,
}
use runtime_pulse.Dispatch.Workers.{Dispatcher, spawn_all, scan}

abbrev pub UniqueWorkers : List String → Type 0
UniqueWorkers [] = Unit
UniqueWorkers (w ∷ l) = (any (λ x. x == w) l ≡ false) × UniqueWorkers l

UniqueWorkers-snoc :
    (s : String) (l : List String)
    → any (λ w. w == s) l ≡ false
    → UniqueWorkers l
    → UniqueWorkers (l ++ s ∷ [])
UniqueWorkers-snoc s [] h u = (refl, tt)
UniqueWorkers-snoc s (x ∷ l) h u = (
  rw (any-append (λ w. w == x) l (s ∷ [])) (ground (arith, u.0, eq_iff s x, eq_iff x s)),
  UniqueWorkers-snoc s l (ground arith) u.1,
)

spawn_all-UniqueWorkers :
    (sessions workers : List String)
    → UniqueWorkers workers
    → UniqueWorkers (spawn_all sessions workers)
unfolding spawn_all
spawn_all-UniqueWorkers [] workers u = u
spawn_all-UniqueWorkers (s ∷ sessions) workers u = elim (Bool-cases (any (λ w. w == s) workers)) [
  | inl e ↦ rw e (spawn_all-UniqueWorkers sessions workers u)
  | inr e ↦
      rw e (spawn_all-UniqueWorkers sessions (workers ++ s ∷ []) (UniqueWorkers-snoc s workers e u))
]

-- Nobody is sent away.
spawn_all_keeps :
    (s : String) (sessions workers : List String)
    → any (λ w. w == s) workers ≡ true
    → any (λ w. w == s) (spawn_all sessions workers) ≡ true
unfolding spawn_all
spawn_all_keeps s [] workers h = h
spawn_all_keeps s (x ∷ sessions) workers h = elim (Bool-cases (any (λ w. w == x) workers)) [
  | inl e ↦ rw e (spawn_all_keeps s sessions workers h)
  | inr e ↦ rw e (
      spawn_all_keeps s sessions (workers ++ x ∷ [])
        (rw (any-append (λ w. w == s) workers (x ∷ [])) (ground arith)))
]

spawn_all_covers :
    (s : String) (sessions workers : List String)
    → In s sessions
    → any (λ w. w == s) (spawn_all sessions workers) ≡ true
unfolding spawn_all
spawn_all_covers s [] workers i = absurd i
spawn_all_covers s (x ∷ sessions) workers (inl q) = elim (Bool-cases (any (λ w. w == x) workers)) [
  | inl e ↦ rw e (spawn_all_keeps s sessions workers (rw q e))
  | inr e ↦ rw e (
      spawn_all_keeps s sessions (workers ++ x ∷ [])
        (rw (any-append (λ w. w == s) workers (x ∷ [])) (rw q (ground (arith, eq_refl x)))))
]
spawn_all_covers s (x ∷ sessions) workers (inr i) = elim (Bool-cases (any (λ w. w == x) workers)) [
  | inl e ↦ rw e (spawn_all_covers s sessions workers i)
  | inr e ↦ rw e (spawn_all_covers s sessions (workers ++ x ∷ []) i)
]

In-distinct : (s : String) (l : List String) → In s l → In s (distinct l)
unfolding distinct
In-distinct s [] i = i
In-distinct s (x ∷ l) (inl q) = inl q
In-distinct s (x ∷ l) (inr i) = elim (Bool-cases (s == x)) [
  | inl e ↦ inl ((eq_iff s x).0 e)
  | inr e ↦ inr ((In-filter (λ t. not (t == x)) s (distinct l)).1 (In-distinct s l i, ground arith))
]

In-session :
    (s : String) (l : List Continuation)
    → any (waits_in s) l ≡ true
    → In s (map (λ c. c.session_id) (filter (λ c. is_pending c.state) l))
In-session s [] h = absurd (cc h)
In-session s (c ∷ l) h = elim (Bool-cases (is_pending c.state)) [
  | inl e ↦ elim (Bool-cases (c.session_id == s)) [
    | inl q ↦
        rw e (inl ((eq_iff s c.session_id).0 (ground (arith, eq_iff c.session_id s, eq_refl s))))
    | inr n ↦ rw e (inr (In-session s l (ground arith)))
  ]
  | inr e ↦ rw e (In-session s l (ground arith))
]

-- After a scan on a healthy connection a session that has a pending continuation, or had a worker
-- already, has a worker; no session has two, provided that none had; and the tables are as they were.
pub scan_covers :
    (d : Dispatcher) (db : Db) (s : String)
    → d.engine.conn ≡ healthy db
    → UniqueWorkers d.workers
    → (any (waits_in s) db.continuations || any (λ w. w == s) d.workers) ≡ true
    → (any (λ w. w == s) (scan d).workers ≡ true)
      × UniqueWorkers (scan d).workers
      × ((scan d).engine.conn ≡ healthy db)
unfolding scan pending_sessions sessions_with_work exec
scan_covers d db s h u w =
    let sessions = sessions_with_work db.continuations in
    rw h (
      elim (Bool-cases (any (λ x. x == s) d.workers)) [
        | inl e ↦ spawn_all_keeps s sessions d.workers e
        | inr e ↦ spawn_all_covers s sessions d.workers (
            (In-sort_by str_leb s _).1
              (In-distinct s _ (In-session s db.continuations (ground arith))))
      ],
      spawn_all-UniqueWorkers sessions d.workers u,
      refl,
    )
