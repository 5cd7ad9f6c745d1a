-- ===== src/Dispatch/System/Steps.antt =====
-- internal/dispatch/dispatcher.go: the steps one by one.
use runtime_pulse.Prelude.{
  ℕ, String, ◌≡◌, refl, sym, ap, subst, ◌∙◌, ◌⊎◌, Bool, true, not, ◌&&◌, some, List, [], ◌∷◌, ◌++◌,
  map, any, any-In, In, In-map, In-map_of, In-append, In-append_left, In-filter, filter, UniqueBy,
  UniqueBy-snoc, UniqueBy-filter, named_once, ok, along_ok, ◌==◌, eq_iff, arith, inl, inr,
  Bool-cases, if◌then◌else◌,
}
use runtime_pulse.Core.{Continuation, ContinuationState}
use runtime_pulse.Store.Tables.{Db}
use runtime_pulse.Store.Sql.{run, exec}
use runtime_pulse.Store.Retention.{is_terminal}
use runtime_pulse.Store.Continuations.{
  Verdict, is_pending, is_running, claim_row, claim_continuation, claim_rows, result_row,
  next_pending_for_session,
}
use runtime_pulse.Store.Continuations.Claim.{claim_exclusive}
use runtime_pulse.Store.Continuations.Fifo.{next_pending_first}
use runtime_pulse.Store.OneShot.{WellFormed}
use runtime_pulse.Store.OneShot.History.{Step, Step-WellFormed}
use runtime_pulse.Dispatch.System.{
  Phase, resting, holding, executing, Worker, System, spawned, move, by_client,
}
use runtime_pulse.Dispatch.System.Clients.{Tended, Step-Tended}
use runtime_pulse.Dispatch.System.Invariant.{
  Backs, Backed, Safe, NoClash-UniqueIds, Elsewhere, the_worker, runs_here, moves-Safe,
}

pub backed_any :
    (p : ContinuationState → Bool) (session : String) (c : Continuation) (l : List Continuation)
    → Backs l p session c
    → any (λ d. d.id == c.id && p d.state) l ≡ true
backed_any p session c l (d, j, id, at, r) =
    any-In (λ d. d.id == c.id && p d.state) d l j (ground (arith, eq_iff d.id c.id))

claimed-Backs :
    (session : String) (c : Continuation) (now : ℕ) (l : List Continuation)
    → Backs l is_pending session c
    → Backs (map (claim_row c.id now) l) is_running session c
claimed-Backs session c now l (d, j, id, at, r) = (
  claim_row c.id now d,
  In-map_of (claim_row c.id now) d l j,
  ground arith,
  ground arith,
  ground (arith, eq_iff d.id c.id),
)

spawned-In :
    (sessions : List String) (l : List Worker) (w : Worker)
    → In w (spawned sessions l)
    → In w l ⊎ (w.phase ≡ resting)
unfolding spawned
spawned-In [] l w i = inl i
spawned-In (s ∷ sessions) l w i = elim (Bool-cases (any (λ w. w.session == s) l)) [
  | inl e ↦ spawned-In sessions l w (rw e at i)
  | inr e ↦
      elim (spawned-In sessions (l ++ record { session = s; phase = resting } ∷ []) w (rw e at i)) [
        | inr r ↦ inr r
        | inl j ↦ elim (In-append w l _ j) [
          | inl k ↦ inl k
          | inr (inl k) ↦ inr (ap (λ w. w.phase) k)
          | inr (inr k) ↦ absurd k
        ]
      ]
]

spawned_keeps :
    (sessions : List String) (l : List Worker) (w : Worker) → In w l → In w (spawned sessions l)
unfolding spawned
spawned_keeps [] l w i = i
spawned_keeps (s ∷ sessions) l w i = elim (Bool-cases (any (λ w. w.session == s) l)) [
  | inl e ↦ rw e (spawned_keeps sessions l w i)
  | inr e ↦ rw e (spawned_keeps sessions _ w (In-append_left w l _ i))
]

spawned_once :
    (sessions : List String) (l : List Worker)
    → UniqueBy (λ w. w.session) l
    → UniqueBy (λ w. w.session) (spawned sessions l)
unfolding spawned
spawned_once [] l u = u
spawned_once (s ∷ sessions) l u = elim (Bool-cases (any (λ w. w.session == s) l)) [
  | inl e ↦ rw e (spawned_once sessions l u)
  | inr e ↦ rw e (spawned_once sessions _ (UniqueBy-snoc (λ w. w.session) l _ e u))
]

pub scans-Safe :
    (s : System) (sessions : List String)
    → Safe s
    → Safe (record s { workers = spawned sessions s.workers })
scans-Safe s sessions safe = record {
  tables = safe.tables;
  workers = spawned_once sessions s.workers safe.workers;
  backed =
      λ w i. elim (spawned-In sessions s.workers w i) [ inl j ↦ safe.backed w j | inr r ↦ rw r tt ];
  owned = λ d j r.
      let (u, k, at, c, phase, id) = safe.owned d j r in
      (u, spawned_keeps sessions s.workers u k, at, c, phase, id);
}

module _ (s : System) (safe : Safe s) (w : Worker) (i : In w s.workers) where
  pub looks-Safe :
      (c : Continuation)
      → w.phase ≡ resting
      → run (next_pending_for_session w.session) s.db ≡ ok (some c, s.db)
      → Safe (record s { workers = move w.session (holding c) s.workers })
  looks-Safe c rests h =
      let (same, taken, idle) = next_pending_first w.session s.db s.db (some c) h in
      let (j, waits, first) = taken c refl in
      moves-Safe s safe w i s.db (holding c) safe.tables (λ d k n. k) (λ d k n. k)
        (c, j, refl, (eq_iff c.session_id w.session).0 (ground arith), ground arith)
        (λ d k e r. let (x, phase, id) = runs_here s safe w i d k r e in absurd (cc (phase, rests)))

  pub leaves-Safe :
      w.phase ≡ resting
      → Safe (record s { workers = filter (λ v. not (v.session == w.session)) s.workers })
  leaves-Safe rests = record {
    tables = safe.tables;
    workers =
        UniqueBy-filter (λ v. v.session) (λ v. not (v.session == w.session)) s.workers safe.workers;
    backed =
        λ v j. safe.backed v ((In-filter (λ v. not (v.session == w.session)) v s.workers).0 j).0;
    owned = λ d j r.
        let (u, k, at, c, phase, id) = safe.owned d j r in
        elim (Bool-cases (u.session == w.session)) [
          | inl e ↦
              let same : u ≡ w = the_worker s safe w i u k ((eq_iff u.session w.session).0 e) in
              absurd (cc (same, phase, rests))
          | inr n ↦ (
            u,
            (In-filter (λ v. not (v.session == w.session)) u s.workers).1 (k, ground arith),
            at,
            c,
            phase,
            id,
          )
        ];
  }

  -- A row of the id that the worker has is the row of its session.
  pub the_row :
      (a b : Continuation) → In a s.db.continuations → In b s.db.continuations → a.id ≡ b.id → a ≡ b
  the_row a b j k e =
      named_once (λ c. c.id) a b s.db.continuations
        (NoClash-UniqueIds s.db.continuations safe.tables.rows) j k e

  pub concludes-Safe :
      (c : Continuation) (v : Verdict) (now : ℕ)
      → w.phase ≡ executing c
      → is_terminal v.state ≡ true
      → WellFormed (record s.db { continuations = map (result_row c.id v now) s.db.continuations })
      → Safe (record {
        db = record s.db { continuations = map (result_row c.id v now) s.db.continuations };
        workers = move w.session resting s.workers;
      })
  concludes-Safe c v now runs ended tables =
      let rows = s.db.continuations in
      let b : Backed rows w.session (executing c) = rw runs at (safe.backed w i) in
      let untouched : (d : Continuation)
          → In d rows
          → Elsewhere s safe w i d
          → result_row c.id v now d ≡ d =
        λ d j n. elim (Bool-cases (d.id == c.id)) [
          | inl e ↦
              let same : d ≡ b.0 = the_row d b.0 j b.1 ((eq_iff d.id c.id).0 e ∙ sym b.2) in
              absurd (cc (n, (eq_iff d.session_id w.session).1 (ap (λ x. x.session_id) same ∙ b.3)))
          | inr m ↦ rw m refl
        ] in
      moves-Safe s safe w i _ resting tables
        (λ d j n.
          subst (λ x. In x (map (result_row c.id v now) rows)) (untouched d j n)
            (In-map_of (result_row c.id v now) d rows j))
        (λ d j n.
          let (o, k, e) = In-map (result_row c.id v now) d rows j in
          let same : o.session_id ≡ d.session_id = ground (arith, e) in
          rw (e ∙ untouched o k (rw same n)) k)
        tt
        (λ d j at r.
          let (o, k, e) = In-map (result_row c.id v now) d rows j in
          elim (Bool-cases (o.id == c.id)) [
            | inl m ↦ absurd (ground (arith, m, e, r, ended))
            | inr m ↦
                let same : d ≡ o = e ∙ rw m refl in
                let (x, phase, id) = runs_here s safe w i o k (rw same at r) (rw same at at) in
                let one : executing c ≡ executing x = sym runs ∙ phase in
                let it : c ≡ x = cc one in
                absurd (cc (m, (eq_iff o.id c.id).1 (sym id ∙ sym (ap (λ x. x.id) it))))
          ])

  claimed-Safe :
      (c : Continuation) (now : ℕ)
      → w.phase ≡ holding c
      → WellFormed (record s.db { continuations = map (claim_row c.id now) s.db.continuations })
      → Safe (record {
        db = record s.db { continuations = map (claim_row c.id now) s.db.continuations };
        workers = move w.session (executing c) s.workers;
      })
  claimed-Safe c now holds tables =
      let rows = s.db.continuations in
      let b : Backed rows w.session (holding c) = rw holds at (safe.backed w i) in
      let untouched : (d : Continuation)
          → In d rows
          → Elsewhere s safe w i d
          → claim_row c.id now d ≡ d =
        λ d j n. elim (Bool-cases (d.id == c.id)) [
          | inl e ↦
              let same : d ≡ b.0 = the_row d b.0 j b.1 ((eq_iff d.id c.id).0 e ∙ sym b.2) in
              absurd (cc (n, (eq_iff d.session_id w.session).1 (ap (λ x. x.session_id) same ∙ b.3)))
          | inr m ↦ rw m refl
        ] in
      moves-Safe s safe w i _ (executing c) tables
        (λ d j n.
          subst (λ x. In x (map (claim_row c.id now) rows)) (untouched d j n)
            (In-map_of (claim_row c.id now) d rows j))
        (λ d j n.
          let (o, k, e) = In-map (claim_row c.id now) d rows j in
          let same : o.session_id ≡ d.session_id = ground (arith, e) in
          rw (e ∙ untouched o k (rw same n)) k)
        (claimed-Backs w.session c now rows b)
        (λ d j at r.
          let (o, k, e) = In-map (claim_row c.id now) d rows j in
          elim (Bool-cases (o.id == c.id)) [
            | inl m ↦ (c, refl, ground (arith, m, e, eq_iff o.id c.id))
            | inr m ↦
                let same : d ≡ o = e ∙ rw m refl in
                let (x, phase, id) = runs_here s safe w i o k (rw same at r) (rw same at at) in
                absurd (cc (phase, holds))
          ])

  pub claims-Safe :
      (c : Continuation) (now : ℕ) (got : Bool) (db : Db)
      → w.phase ≡ holding c
      → run (claim_continuation c.id now) s.db ≡ ok (got, db)
      → WellFormed db
      → Safe (record {
        db = db;
        workers = move w.session (if got then executing c else resting) s.workers;
      })
  unfolding claim_continuation claim_rows exec
  claims-Safe c now got db holds h tables =
      let b : Backed s.db.continuations w.session (holding c) = rw holds at (safe.backed w i) in
      let yes : got ≡ true =
        (claim_exclusive c.id now now s.db db got (NoClash-UniqueIds _ safe.tables.rows) h).0
        ∙ backed_any is_pending w.session c s.db.continuations b in
      rw yes (
        along_ok
          (λ _ d.
            WellFormed d
            → Safe (record { db = d; workers = move w.session (executing c) s.workers }))
          h (claimed-Safe c now holds) tables)

pub serves-Safe :
    (s : System) (db : Db) (step : Step s.db db)
    → by_client step ≡ true
    → Safe s
    → Safe (record s { db = db })
serves-Safe s db step client safe =
    let t = Step-Tended step client in
    record {
      tables = Step-WellFormed step safe.tables;
      workers = safe.workers;
      backed =
          λ w i. tended s.db.continuations db.continuations t w.session w.phase (safe.backed w i);
      owned = λ d j r. safe.owned d (t.old d j r) r;
    }
  where
    tended :
        (l l' : List Continuation) (t : Tended l l') (session : String) (phase : Phase)
        → Backed l session phase
        → Backed l' session phase
    tended l l' t session resting b = tt
    tended l l' t session (holding c) (d, j, id, at, r) = (d, t.kept d j (ground arith), id, at, r)
    tended l l' t session (executing c) (d, j, id, at, r) =
        (d, t.kept d j (ground arith), id, at, r)
