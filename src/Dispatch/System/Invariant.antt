-- ===== src/Dispatch/System/Invariant.antt =====
-- internal/dispatch/dispatcher.go: what the steps of the workers and the clients keep.
use runtime_pulse.Prelude.{
  String, ◌≡◌, refl, sym, ap, subst, ◌∙◌, ◌⊎◌, Bool, true, false, List, [], ◌∷◌, any, In, In-map,
  In-map_of, UniqueBy, UniqueBy-map, named_once, ◌==◌, eq_iff, arith, inl, inr, Bool-cases,
}
use runtime_pulse.Core.{Continuation, ContinuationState}
use runtime_pulse.Store.Tables.{Db}
use runtime_pulse.Store.Ingest.{clashes}
use runtime_pulse.Store.Continuations.{is_pending, is_running}
use runtime_pulse.Store.Continuations.Claim.{UniqueIds}
use runtime_pulse.Store.OneShot.{NoClash, WellFormed}
use runtime_pulse.Dispatch.System.{Phase, resting, holding, executing, Worker, System, moved, move}

-- The row of a continuation that a worker has.
abbrev pub Backs : List Continuation → (ContinuationState → Bool) → String → Continuation → Type 0
Backs rows p session c =
    (d : Continuation) × In d rows × (d.id ≡ c.id) × (d.session_id ≡ session) × (p d.state ≡ true)

abbrev pub Backed : List Continuation → String → Phase → Type 0
Backed rows session resting = Unit
Backed rows session (holding c) = Backs rows is_pending session c
Backed rows session (executing c) = Backs rows is_running session c

-- The worker that runs a row.
abbrev pub Owner : List Worker → Continuation → Type 0
Owner workers d =
    (w : Worker) × In w workers
    × (w.session ≡ d.session_id)
    × (c : Continuation) × (w.phase ≡ executing c)
    × (c.id ≡ d.id)

pub record Safe (s : System) : Type 0 where
  pub tables : WellFormed s.db
  pub workers : UniqueBy (λ w. w.session) s.workers
  pub backed : (w : Worker) → In w s.workers → Backed s.db.continuations w.session w.phase
  pub owned :
      (d : Continuation) → In d s.db.continuations → is_running d.state ≡ true → Owner s.workers d

clashes_not :
    (c : Continuation) (l : List Continuation)
    → any (clashes c) l ≡ false
    → any (λ d. d.id == c.id) l ≡ false
unfolding clashes
clashes_not c [] h = refl
clashes_not c (d ∷ l) h = ground (arith, clashes_not c l)

pub NoClash-UniqueIds : (l : List Continuation) → NoClash l → UniqueIds l
NoClash-UniqueIds [] n = tt
NoClash-UniqueIds (c ∷ l) n = (clashes_not c l n.0, NoClash-UniqueIds l n.1)

-- A worker of the list after one of them has moved.
In-move :
    (session : String) (phase : Phase) (workers : List Worker) (v : Worker)
    → In v (move session phase workers)
    → ((v.session ≡ session) × (v.phase ≡ phase))
      ⊎ (In v workers × ((v.session == session) ≡ false))
In-move session phase workers v i =
    let (u, j, e) = In-map (moved session phase) v workers i in
    elim (Bool-cases (u.session == session)) [
      | inl q ↦
          let same : v ≡ record u { phase = phase } = e ∙ rw q in
          inl (ap (λ w. w.session) same ∙ (eq_iff u.session session).0 q, ap (λ w. w.phase) same)
      | inr n ↦ let same : v ≡ u = e ∙ rw n in inr (rw same j, rw same n)
    ]

In-move_other :
    (session : String) (phase : Phase) (workers : List Worker) (u : Worker)
    → (u.session == session) ≡ false
    → In u workers
    → In u (move session phase workers)
In-move_other session phase workers u n i =
    let same : moved session phase u ≡ u = rw n in
    subst (λ x. In x (move session phase workers)) same
      (In-map_of (moved session phase) u workers i)

pub In-move_self :
    (session : String) (phase : Phase) (workers : List Worker) (u : Worker)
    → u.session ≡ session
    → In u workers
    → In (record u { phase = phase }) (move session phase workers)
In-move_self session phase workers u e i =
    let same : moved session phase u ≡ record u { phase = phase } =
      rw ((eq_iff u.session session).1 e) in
    subst (λ x. In x (move session phase workers)) same
      (In-map_of (moved session phase) u workers i)

module _ (s : System) (safe : Safe s) (w : Worker) (i : In w s.workers) where
  abbrev pub Elsewhere : Continuation → Type 0
  Elsewhere d = (d.session_id == w.session) ≡ false

  -- A session has one worker.
  pub the_worker : (u : Worker) → In u s.workers → u.session ≡ w.session → u ≡ w
  the_worker u j e = named_once (λ w. w.session) u w s.workers safe.workers j i e

  -- What runs in the session is what its worker executes.
  pub runs_here :
      (d : Continuation)
      → In d s.db.continuations
      → is_running d.state ≡ true
      → d.session_id ≡ w.session
      → (c : Continuation) × (w.phase ≡ executing c) × (c.id ≡ d.id)
  runs_here d j r e =
      let (u, k, at, c, phase, id) = safe.owned d j r in
      let same : u ≡ w = the_worker u k (at ∙ e) in (c, ap (λ w. w.phase) (sym same) ∙ phase, id)

  module _ (db : Db) (phase : Phase) (tables : WellFormed db)
      (kept : (d : Continuation) → In d s.db.continuations → Elsewhere d → In d db.continuations)
      (old : (d : Continuation) → In d db.continuations → Elsewhere d → In d s.db.continuations)
      (own : Backed db.continuations w.session phase)
      (mine : (d : Continuation)
        → In d db.continuations
        → d.session_id ≡ w.session
        → is_running d.state ≡ true
        → (c : Continuation) × (phase ≡ executing c) × (c.id ≡ d.id)) where
    still-Backed :
        (session : String) (p : Phase)
        → (session == w.session) ≡ false
        → Backed s.db.continuations session p
        → Backed db.continuations session p
    still-Backed session resting n b = tt
    still-Backed session (holding c) n (d, j, id, at, r) = (d, kept d j (rw at n), id, at, r)
    still-Backed session (executing c) n (d, j, id, at, r) = (d, kept d j (rw at n), id, at, r)

    -- A step of the worker that touches rows of its session only.
    pub moves-Safe : Safe (record { db = db; workers = move w.session phase s.workers })
    moves-Safe = record {
      tables = tables;
      workers =
          UniqueBy-map (λ w. w.session) (moved w.session phase) (λ u. ground arith) s.workers
            safe.workers;
      backed = λ v j. elim (In-move w.session phase s.workers v j) [
        | inl (at, is) ↦ rw (at, is) own
        | inr (k, n) ↦ still-Backed v.session v.phase n (safe.backed v k)
      ];
      owned = λ d j r. elim (Bool-cases (d.session_id == w.session)) [
        | inl e ↦
            let here : d.session_id ≡ w.session = (eq_iff d.session_id w.session).0 e in
            let (c, is, id) = mine d j here r in
            (
              record w { phase = phase },
              In-move_self w.session phase s.workers w refl i,
              sym here,
              c,
              is,
              id,
            )
        | inr n ↦
            let (u, k, at, c, is, id) = safe.owned d (old d j n) r in
            (u, In-move_other w.session phase s.workers u (rw at n) k, at, c, is, id)
      ];
    }
