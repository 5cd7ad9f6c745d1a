-- ===== src/Store/Continuations/Recovery.antt =====
-- ResetRunningContinuations of store/continuations.go: the recovery after a crash of the daemon.
use runtime_pulse.Prelude.{
  ℕ, String, ◌≡◌, refl, ap, Bool, false, ◌&&◌, ◌||◌, List, [], ◌∷◌, map, any, length, filter, In,
  ok, ◌==◌, arith, inl, inr,
}
use runtime_pulse.Core.{Continuation}
use runtime_pulse.Store.Tables.{Db}
use runtime_pulse.Store.Sql.{exec, run}
use runtime_pulse.Store.Continuations.{
  is_pending, is_running, reset_row, reset_rows, reset_running_continuations, waits_in,
}

-- Work of a session that is not finished.
abbrev pub is_unfinished : String → Continuation → Bool
is_unfinished session_id c =
    c.session_id == session_id && (is_pending c.state || is_running c.state)

none_running :
    (now : ℕ) (l : List Continuation)
    → any (λ c. is_running c.state) (map (reset_row now) l) ≡ false
none_running now [] = refl
none_running now (c ∷ l) = ground (arith, none_running now l)

work_kept :
    (session_id : String) (now : ℕ) (l : List Continuation)
    → length (filter (waits_in session_id) (map (reset_row now) l))
      ≡ length (filter (is_unfinished session_id) l)
work_kept session_id now [] = refl
work_kept session_id now (c ∷ l) = ground (arith, work_kept session_id now l)

In-reset :
    (now : ℕ) (c : Continuation) (l : List Continuation)
    → is_running c.state ≡ false
    → In c l
    → In c (map (reset_row now) l)
In-reset now c [] h i = i
In-reset now c (x ∷ l) h (inl e) = inl (cc (still now c h, ap (reset_row now) e))
  where
    still : (now : ℕ) (c : Continuation) → is_running c.state ≡ false → reset_row now c ≡ c
    still now c h = rw h
In-reset now c (x ∷ l) h (inr i) = inr (In-reset now c l h i)

-- After the recovery no row is running; each session has as many pending continuations as it had
-- pending or running ones, so that no work is lost; rows that were not running are still there as
-- they were; and the count is that of the running rows.
pub reset_recovers :
    (now : ℕ) (db db' : Db) (n : ℕ)
    → run (reset_running_continuations now) db ≡ ok (n, db')
    → (n ≡ length (filter (λ c. is_running c.state) db.continuations))
      × (any (λ c. is_running c.state) db'.continuations ≡ false)
      × ((session_id : String)
          → length (filter (waits_in session_id) db'.continuations)
            ≡ length (filter (is_unfinished session_id) db.continuations))
      × ((c : Continuation)
          → is_running c.state ≡ false
          → In c db.continuations
          → In c db'.continuations)
unfolding reset_running_continuations reset_rows exec
reset_recovers now db db' n h =
    let rows : db'.continuations ≡ map (reset_row now) db.continuations = ground arith in
    (
      ground arith,
      rw rows (none_running now db.continuations),
      λ s. rw rows (work_kept s now db.continuations),
      λ c e i. rw rows (In-reset now c db.continuations e i),
    )
