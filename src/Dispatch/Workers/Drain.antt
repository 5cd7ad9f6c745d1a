-- ===== src/Dispatch/Workers/Drain.antt =====
-- The loop of `worker` in internal/dispatch/dispatcher.go: how a session's queue is drained.
use runtime_pulse.Prelude.{
  ℕ, ℤ, pos, negsuc, zero, suc, ◌≤◌, ◌<◌, String, ◌≡◌, refl, sym, ap, subst, ◌∙◌, Bool, true, false,
  Option, none, some, List, [], ◌∷◌, map, any, any-In, All, In, In-of_any, length, filter, ok,
  eq_refl, arith, inl, inr, Bool-cases, Option-cases,
}
use runtime_pulse.Core.{Session, Continuation}
use runtime_pulse.Bus.{Bus}
use runtime_pulse.Store.Tables.{Db}
use runtime_pulse.Store.Sql.{Conn, healthy, exec}
use runtime_pulse.Store.Sessions.{find_session, get_session}
use runtime_pulse.Store.Retention.{is_terminal}
use runtime_pulse.Store.Ingest.Budget.{work, IsOneShot}
use runtime_pulse.Store.Continuations.{
  is_pending, claimable, claim_row, claim_rows, claim_continuation, Verdict, result_row, waits_in,
  oldest_pending, next_pending_for_session,
}
use runtime_pulse.Store.Continuations.Fifo.{next_pending_first}
use runtime_pulse.Engine.{Engine, Draw}
use runtime_pulse.Engine.Budget.{Thrifty, engine-Thrifty}
use runtime_pulse.Dispatch.{
  RunResult, Resume, Registry, adapter_for, Finding, state_of_exit, finding_of_run, Course,
  supervise, with_adapter, with_session, result_event, conclude, execute,
}
use runtime_pulse.Dispatch.Execution.{with_session-rows, conclude_cut, conclude_live}
use runtime_pulse.Dispatch.Workers.{
  Turn, leave, again, claimed_turn, next_turn, worker_turn, Round, worker,
}

-- A verdict is `completed` or `failed`.
exit-settled : (code : ℤ) → is_terminal (state_of_exit code) ≡ true
exit-settled (pos zero) = refl
exit-settled (pos (suc n)) = refl
exit-settled (negsuc n) = refl

run-settled :
    (res : RunResult) (e : Option String) → is_terminal (finding_of_run res e).verdict.state ≡ true
unfolding finding_of_run
run-settled res none = exit-settled res.exit_code
run-settled res (some x) = refl

adapter-settled :
    (reg : Registry) (k : Course) (sess : Session) (prompt : String) (a : Option Resume)
    (conn : Conn)
    → is_terminal (with_adapter reg k sess prompt a conn).0.verdict.state ≡ true
unfolding with_adapter supervise
adapter-settled reg k sess prompt none conn = refl
adapter-settled reg k sess prompt (some resume) conn =
    run-settled (resume sess prompt).0 (resume sess prompt).1

pub with_session-settled :
    (reg : Registry) (k : Course) (c : Continuation) (o : Option Session) (conn : Conn)
    → is_terminal (with_session reg k c (ok o, conn)).0.verdict.state ≡ true
unfolding with_session
with_session-settled reg k c none conn = refl
with_session-settled reg k c (some s) conn =
    adapter-settled reg k s c.prompt (adapter_for reg s.agent) conn

result_pending :
    (id : String) (v : Verdict) (now : ℕ) (l : List Continuation)
    → is_terminal v.state ≡ true
    → length (filter (λ c. is_pending c.state) (map (result_row id v now) l))
      ≤ length (filter (λ c. is_pending c.state) l)
result_pending id v now [] h = omega arith
result_pending id v now (c ∷ l) h = ground (arith, result_pending id v now l h)

claim_spends :
    (id : String) (now : ℕ) (l : List Continuation)
    → any (claimable id) l ≡ true
    → suc (length (filter (λ c. is_pending c.state) (map (claim_row id now) l)))
      ≤ length (filter (λ c. is_pending c.state) l)
claim_spends id now [] h = absurd (cc h)
claim_spends id now (c ∷ l) h = ground (arith, claim_spends id now l, claim_idle id now l)
  where
    claim_idle :
        (id : String) (now : ℕ) (l : List Continuation)
        → length (filter (λ c. is_pending c.state) (map (claim_row id now) l))
          ≤ length (filter (λ c. is_pending c.state) l)
    claim_idle id now [] = omega arith
    claim_idle id now (c ∷ l) = ground (arith, claim_idle id now l)

execute-Thrifty :
    (reg : Registry) (k : Course) (d : Draw) (c : Continuation) (db : Db) (bus : Bus) (awake : Bool)
    → Thrifty db (execute reg k d c (record { conn = healthy db; bus = bus; awake = awake })).conn
unfolding execute get_session exec
execute-Thrifty reg k d c db bus awake =
    let before : Engine = record { conn = healthy db; bus = bus; awake = awake } in
    let o = find_session c.session_id db.sessions in
    let f : Finding = (with_session reg k c (ok o, healthy db)).0 in
    let (sessions, left) = with_session-rows reg k c o db in
    let db1 : Db = record db { sessions = sessions } in
    let rows = map (result_row c.id f.verdict k.recorded) db.continuations in
    subst (λ conn. Thrifty db (conclude k d c before (f, conn)).conn) (sym left)
      (elim (Bool-cases k.cancelled) [
        | inl cut ↦ (
          db1,
          ap (λ e. e.conn) (conclude_cut k d c before f (healthy db1) cut),
          λ ones. (omega arith, ones),
        )
        | inr live ↦
            let (db', conn, thrift) =
              engine-Thrifty d (result_event c f) (record db1 { continuations = rows }) bus awake in
            (
              db',
              ap (λ e. e.conn) (conclude_live k d c before f db1 live) ∙ conn,
              λ ones. (
                omega (
                  arith,
                  (thrift ones).0,
                  result_pending c.id f.verdict k.recorded db.continuations
                      (with_session-settled reg k c o (healthy db)),
                ),
                (thrift ones).1,
              ),
            )
      ])

-- What a turn of the loop leaves: nothing to do, or less to do.
abbrev Progress : String → Db → Turn × Engine → Type 0
Progress session_id db (leave, e) =
    (e.conn ≡ healthy db) × (any (waits_in session_id) db.continuations ≡ false)
Progress session_id db (again, e) =
    (db' : Db) × (e.conn ≡ healthy db')
    × (All IsOneShot db.rules → (work db' < work db) × All IsOneShot db'.rules)

module _ (reg : Registry) (k : Course) (d : Draw) (now : ℕ) (bus : Bus) (awake : Bool) where
  claimed_turn-Progress :
      (s : String) (c : Continuation) (db : Db) (b : Bool)
      → In c db.continuations
      → is_pending c.state ≡ true
      → let claimed : Db = record db {
        continuations = map (claim_row c.id now) db.continuations;
      } in
        Progress s db (
          claimed_turn reg k d c
            (record { conn = healthy db; bus = bus; awake = awake })
            (ok b, healthy claimed))
  unfolding claimed_turn
  claimed_turn-Progress s c db b i waits =
      let claimed : Db = record db { continuations = map (claim_row c.id now) db.continuations } in
      let spent =
        claim_spends c.id now db.continuations
          (any-In (claimable c.id) c db.continuations i (ground (arith, eq_refl c.id))) in
      elim b
        as (λ b. Progress s db (
          claimed_turn reg k d c (record { conn = healthy db; bus = bus; awake = awake })
            (ok b, healthy claimed))) [
              | true ↦
                  let (db', conn, thrift) = execute-Thrifty reg k d c claimed bus awake in
                  (db', conn, λ ones. (omega (arith, (thrift ones).0, spent), (thrift ones).1))
              | false ↦ (claimed, refl, λ ones. (omega (arith, spent), ones))
            ]

  worker_turn-Progress :
      (s : String) (db : Db)
      → Progress s db
          (worker_turn reg k d now s (record { conn = healthy db; bus = bus; awake = awake }))
  unfolding worker_turn next_turn next_pending_for_session claim_continuation claim_rows exec
  worker_turn-Progress s db =
      let (same, taken, idle) =
        next_pending_first s db db (oldest_pending s db.continuations)
          (unfold next_pending_for_session exec in refl) in
      elim (Option-cases (oldest_pending s db.continuations)) [
        | inl e ↦ rw e (
          refl,
          elim (Bool-cases (any (waits_in s) db.continuations)) [
            | inl w ↦
                let (c, i, q) = In-of_any (waits_in s) db.continuations w in
                absurd (cc (idle e c i, q))
            | inr n ↦ n
          ],
        )
        | inr (c, e) ↦
            let (i, waits, first) = taken c e in
            rw e (claimed_turn-Progress s c db _ i (ground arith))
      ]

-- The worker has left, and its queue is empty unless it was shut down.
abbrev Drained : String → List Round → Turn × Engine → Type 0
Drained session_id rounds (turn, e) =
    (turn ≡ leave)
    × (db : Db) × (e.conn ≡ healthy db)
    × (All (λ r. r.shutdown ≡ false) rounds → any (waits_in session_id) db.continuations ≡ false)

module _ (reg : Registry) (s : String) where
  empties_after :
      (r : Round) (rounds : List Round) (db : Db) (turn : Turn) (e : Engine)
      → Progress s db (turn, e)
      → All IsOneShot db.rules
      → work db ≤ length rounds
      → ((db' : Db)
          → e.conn ≡ healthy db'
          → All IsOneShot db'.rules
          → work db' < length rounds
          → Drained s rounds (worker reg s rounds e))
      → Drained s (r ∷ rounds) (elim turn [ leave ↦ (leave, e) | again ↦ worker reg s rounds e ])
  empties_after r rounds db leave e p ones less rest = (refl, db, p.0, λ _. p.1)
  empties_after r rounds db again e (db', conn, thrift) ones less rest =
      let (left, after, at, empty) =
        rest db' conn (thrift ones).1 (omega (arith, (thrift ones).0, less)) in
      (left, after, at, λ h. empty h.1)

  worker_round :
      (r : Round) (rounds : List Round) (e : Engine)
      → r.shutdown ≡ false
      → let (turn, e') = worker_turn reg r.course r.draw r.now s e in
        worker reg s (r ∷ rounds) e
        ≡ elim turn [ leave ↦ (leave, e') | again ↦ worker reg s rounds e' ]
  unfolding worker
  worker_round r rounds e up = rw up refl

  drains :
      (rounds : List Round) (db : Db) (e : Engine)
      → e.conn ≡ healthy db
      → All IsOneShot db.rules
      → work db < length rounds
      → Drained s rounds (worker reg s rounds e)
  unfolding worker
  drains [] db e h ones less = absurd (omega (arith, less))
  drains (r ∷ rounds) db e h ones less = elim (Bool-cases r.shutdown) [
    | inl down ↦ rw down (refl, db, h, λ k. absurd (cc (k.0, down)))
    | inr up ↦
        let t = worker_turn reg r.course r.draw r.now s e in
        let p : Progress s db t =
          subst
            (λ conn. Progress s db (
              worker_turn reg r.course r.draw r.now s
                (record { conn = conn; bus = e.bus; awake = e.awake })))
            (sym h) (worker_turn-Progress reg r.course r.draw r.now e.bus e.awake s db) in
        subst (Drained s (r ∷ rounds)) (sym (worker_round r rounds e up)) (
          empties_after r rounds db t.0 t.1 p ones (omega (arith, less))
            (λ db' conn ones' less'. drains rounds db' t.1 conn ones' less'))
  ]

-- A worker drains its queue and leaves: when all rules are one-shot, the connection is healthy, the
-- daemon is not shut down, and the rounds are more than the pending continuations and the unconsumed
-- rules together, the loop has ended within these rounds, whatever events its runs emit and whatever
-- further continuations these make; and its session has no pending continuation then.
pub worker_drains :
    (reg : Registry) (s : String) (rounds : List Round) (db : Db) (bus : Bus) (awake : Bool)
    → All IsOneShot db.rules
    → work db < length rounds
    → All (λ r. r.shutdown ≡ false) rounds
    → let (turn, e) =
        worker reg s rounds (record { conn = healthy db; bus = bus; awake = awake }) in
      (turn ≡ leave)
      × (after : Db) × (e.conn ≡ healthy after)
      × (any (waits_in s) after.continuations ≡ false)
worker_drains reg s rounds db bus awake ones less up =
    let (left, after, at, empty) =
      drains reg s rounds db (record { conn = healthy db; bus = bus; awake = awake }) refl ones
        less in
    (left, after, at, empty up)
