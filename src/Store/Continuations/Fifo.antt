-- ===== src/Store/Continuations/Fifo.antt =====
-- NextPendingForSession of store/continuations.go: the order of a session's queue.
use runtime_pulse.Prelude.{
  String, ◌≡◌, ◌∙◌, true, false, Option, none, some, In, In-filter, filter, ok, arith, inl, inr,
  Bool-cases,
}
use runtime_pulse.Prelude.Order.{
  IsOrder, str_leb_total, str_leb_trans, head-sort_by, head-sort_by-none,
}
use runtime_pulse.Core.{Continuation}
use runtime_pulse.Store.Tables.{Db}
use runtime_pulse.Store.Sql.{exec, run}
use runtime_pulse.Store.Continuations.{fifo_leb, waits_in, oldest_pending, next_pending_for_session}

fifo-IsOrder : IsOrder fifo_leb
unfolding fifo_leb
fifo-IsOrder = record {
  total = λ a b h. ground (arith, str_leb_total a.id b.id);
  trans = λ a b c h k. ground (arith, str_leb_trans a.id b.id c.id);
}

-- What is taken next for a session is a pending continuation of that session before which no other
-- pending one of the session comes; and if nothing is taken, none of the session is pending.
pub next_pending_first :
    (session_id : String) (db db' : Db) (next : Option Continuation)
    → run (next_pending_for_session session_id) db ≡ ok (next, db')
    → (db' ≡ db)
      × ((c : Continuation)
          → next ≡ some c
          → In c db.continuations
            × (waits_in session_id c ≡ true)
            × ((d : Continuation)
                → In d db.continuations
                → waits_in session_id d ≡ true
                → fifo_leb c d ≡ true))
      × (next ≡ none → (d : Continuation) → In d db.continuations → waits_in session_id d ≡ false)
unfolding next_pending_for_session exec
next_pending_first session_id db db' next h =
    let p = waits_in session_id in
    let taken : oldest_pending session_id db.continuations ≡ next = ground arith in
    (
      ground arith,
      λ c e.
          let first =
            head-sort_by fifo_leb fifo-IsOrder (filter p db.continuations) c
              (unfold oldest_pending in taken ∙ e) in
          let kept = (In-filter p c db.continuations).0 first.0 in
          (kept.0, kept.1, λ d i w. first.1 d ((In-filter p d db.continuations).1 (i, w))),
      λ e d i. elim (Bool-cases (p d)) [
        | inl w ↦ absurd (
            head-sort_by-none fifo_leb (filter p db.continuations)
              (unfold oldest_pending in taken ∙ e) d ((In-filter p d db.continuations).1 (i, w)))
        | inr w ↦ w
      ],
    )
