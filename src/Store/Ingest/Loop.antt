-- ===== src/Store/Ingest/Loop.antt =====
-- What the loop of the outbox transaction keeps, adds and covers.
use mathlib.Core.List.{append-nil, append_assoc}
use runtime_pulse.Prelude.{
  ℕ, suc, String, ◌≡◌, refl, sym, ap, ◌∙◌, inl, inr, Bool, true, false, List, [], ◌∷◌, ◌++◌, any,
  All, In, All-append, All-map, any-append, ◌==◌, ◌&&◌, ◌||◌, ◌≢◌, eq_iff, eq_refl, arith,
  Bool-cases,
}
use runtime_pulse.Core.{Event, Rule, Continuation, TemplateEngine}
use runtime_pulse.Store.Tables.{Db}
use runtime_pulse.Store.Ingest.{new_continuation, clashes}
use runtime_pulse.Store.Ingest.Run.{after_rule, made_for, loop_db, loop_made}

-- A continuation of the rule for the event.
abbrev pub of_pair : String → String → Continuation → Bool
of_pair rule_id event_id d = d.rule_id == rule_id && d.event_id == event_id

-- The continuation that a rule gives for an event carries the rule's names and session.
pub record IsFor (ev : Event) (r : Rule) (c : Continuation) : Type 0 where
  pub rule : c.rule_id ≡ r.id
  pub event : c.event_id ≡ ev.id
  pub session : c.session_id ≡ r.session_id
  pub label : c.label ≡ r.label

module _ (t : TemplateEngine) (ev : Event) (now : ℕ) where
  pub new_continuation-IsFor :
      (id : String) (r : Rule) → IsFor ev r (new_continuation t ev now id r)
  unfolding new_continuation
  new_continuation-IsFor id r = ground arith

  pub id-new_continuation : (id : String) (r : Rule) → (new_continuation t ev now id r).id ≡ id
  unfolding new_continuation
  id-new_continuation id r = ground arith

made_for-All {κ} :
    (P : Continuation → Type κ) (c : Continuation) (db : Db) → P c → All P (made_for c db)
made_for-All P c db h = elim (Bool-cases (any (clashes c) db.continuations)) [
  | inl e ↦ rw e tt
  | inr e ↦ rw e (h, tt)
]

after_rule-continuations :
    (r : Rule) (c : Continuation) (db : Db)
    → (after_rule r c db).continuations ≡ db.continuations ++ made_for c db
unfolding after_rule
after_rule-continuations r c db = elim (Bool-cases (any (clashes c) db.continuations)) [
  | inl e ↦ rw (e, after_rule) (sym (append-nil _))
  | inr e ↦ rw (e, after_rule)
]

-- The tables that the loop leaves alone.
pub record SameElsewhere (a b : Db) : Type 0 where
  pub events : a.events ≡ b.events
  pub sessions : a.sessions ≡ b.sessions
  pub watches : a.watches ≡ b.watches

after_rule-SameElsewhere :
    (r : Rule) (c : Continuation) (db : Db) → SameElsewhere (after_rule r c db) db
unfolding after_rule
after_rule-SameElsewhere r c db = ground arith

module _ (t : TemplateEngine) (ev : Event) (now : ℕ) where
  pub loop-SameElsewhere :
      (ids : ℕ → String) (rs : List Rule) (db : Db) → SameElsewhere (loop_db t ev now ids rs db) db
  unfolding loop_db
  loop-SameElsewhere ids [] db = record { events = refl; sessions = refl; watches = refl }
  loop-SameElsewhere ids (r ∷ rs) db =
      let c = new_continuation t ev now (ids 0) r in
      ground (
        arith,
        loop-SameElsewhere (λ n. ids (suc n)) rs (after_rule r c db),
        after_rule-SameElsewhere r c db,
      )

  -- The continuations in the result are the rows that were added, in order.
  pub loop-continuations :
      (ids : ℕ → String) (rs : List Rule) (db : Db)
      → (loop_db t ev now ids rs db).continuations
        ≡ db.continuations ++ loop_made t ev now ids rs db
  unfolding loop_db loop_made
  loop-continuations ids [] db = sym (append-nil _)
  loop-continuations ids (r ∷ rs) db =
      let c = new_continuation t ev now (ids 0) r in
      loop-continuations (λ n. ids (suc n)) rs (after_rule r c db)
      ∙ ap (λ l. l ++ loop_made t ev now (λ n. ids (suc n)) rs (after_rule r c db))
          (after_rule-continuations r c db)
      ∙ append_assoc db.continuations (made_for c db)
          (loop_made t ev now (λ n. ids (suc n)) rs (after_rule r c db))

  -- Each continuation that is made is for one of the rules.
  pub loop_made-IsFor :
      (ids : ℕ → String) (rs : List Rule) (db : Db)
      → All (λ c. (r : Rule) × In r rs × IsFor ev r c) (loop_made t ev now ids rs db)
  unfolding loop_made
  loop_made-IsFor ids [] db = tt
  loop_made-IsFor ids (r ∷ rs) db =
      let c = new_continuation t ev now (ids 0) r in
      All-append (λ d. (s : Rule) × In s (r ∷ rs) × IsFor ev s d) _ _
        (made_for-All _ c db (r, inl refl, new_continuation-IsFor t ev now (ids 0) r))
        (All-map _ (λ d h. (h.0, inr h.1, h.2))
          (loop_made-IsFor (λ n. ids (suc n)) rs (after_rule r c db)))

pub any-clashes :
    (c : Continuation) (l : List Continuation)
    → any (clashes c) l ≡ (any (λ d. d.id == c.id) l || any (of_pair c.rule_id c.event_id) l)
unfolding clashes
any-clashes c [] = refl
any-clashes c (d ∷ l) = ground (arith, any-clashes c l)

-- The ids that the loop will give are new to the table, and distinct.
pub record Fresh (ids : ℕ → String) (db : Db) : Type 0 where
  pub absent : (n : ℕ) → any (λ d. d.id == ids n) db.continuations ≡ false
  pub distinct : (m n : ℕ) → ids m ≡ ids n → m ≡ n

module _ (t : TemplateEngine) (ev : Event) (now : ℕ) where
  any-after_rule :
      (p : Continuation → Bool) (r : Rule) (c : Continuation) (db : Db)
      → any p (after_rule r c db).continuations ≡ (any p db.continuations || any p (made_for c db))
  any-after_rule p r c db = rw (after_rule-continuations r c db) (any-append p _ _)

  ids_apart :
      (ids : ℕ → String) (m n : ℕ) → (ids m ≡ ids n → m ≡ n) → m ≢ n → (ids m == ids n) ≡ false
  ids_apart ids m n h ne = ground (arith, eq_iff (ids m) (ids n))

  after_rule-Fresh :
      (ids : ℕ → String) (r : Rule) (db : Db)
      → Fresh ids db
      → Fresh (λ n. ids (suc n)) (after_rule r (new_continuation t ev now (ids 0) r) db)
  after_rule-Fresh ids r db f = record {
    absent = λ n.
        let c = new_continuation t ev now (ids 0) r in
        rw (any-after_rule (λ d. d.id == ids (suc n)) r c db) (
          ground (
            arith,
            f.absent (suc n),
            id-new_continuation t ev now (ids 0) r,
            ids_apart ids 0 (suc n) (f.distinct 0 (suc n)) (omega arith),
          ));
    distinct = λ m n e. omega (arith, f.distinct (suc m) (suc n) e);
  }

  after_rule-covers :
      (id : String) (r : Rule) (db : Db)
      → any (λ d. d.id == id) db.continuations ≡ false
      → any (of_pair r.id ev.id) (after_rule r (new_continuation t ev now id r) db).continuations
        ≡ true
  after_rule-covers id r db new =
      let c = new_continuation t ev now id r in
      let f : IsFor ev r c = new_continuation-IsFor t ev now id r in
      rw (any-after_rule (of_pair r.id ev.id) r c db) (
        ground (
          arith,
          any-clashes c db.continuations,
          id-new_continuation t ev now id r,
          f,
          new,
          eq_refl r.id,
          eq_refl ev.id,
        ))

  -- With fresh ids no rule is left without a continuation for the event.
  pub loop_covers :
      (ids : ℕ → String) (rs : List Rule) (db : Db)
      → Fresh ids db
      → All (λ r. any (of_pair r.id ev.id) (loop_db t ev now ids rs db).continuations ≡ true) rs
  unfolding loop_db
  loop_covers ids [] db f = tt
  loop_covers ids (r ∷ rs) db f =
      let c = new_continuation t ev now (ids 0) r in
      let rest = λ (n : ℕ). ids (suc n) in
      (
        rw (loop-continuations t ev now rest rs (after_rule r c db)) (
            rw (
              any-append (of_pair r.id ev.id) (after_rule r c db).continuations
                  (loop_made t ev now rest rs (after_rule r c db)),
              after_rule-covers (ids 0) r db (f.absent 0),
            )),
        loop_covers rest rs (after_rule r c db) (after_rule-Fresh ids r db f),
      )

  -- A rule that already has a continuation for the event is passed over.
  after_rule_idle :
      (id : String) (r : Rule) (db : Db)
      → any (of_pair r.id ev.id) db.continuations ≡ true
      → let c = new_continuation t ev now id r in (after_rule r c db ≡ db) × (made_for c db ≡ [])
  unfolding after_rule
  after_rule_idle id r db h =
      let c = new_continuation t ev now id r in
      let f : IsFor ev r c = new_continuation-IsFor t ev now id r in
      let clash : any (clashes c) db.continuations ≡ true =
        any-clashes c db.continuations ∙ ground (arith, f, h) in
      (rw clash, rw clash)

  pub loop_idle :
      (ids : ℕ → String) (rs : List Rule) (db : Db)
      → All (λ r. any (of_pair r.id ev.id) db.continuations ≡ true) rs
      → (loop_db t ev now ids rs db ≡ db) × (loop_made t ev now ids rs db ≡ [])
  unfolding loop_db loop_made
  loop_idle ids [] db h = (refl, refl)
  loop_idle ids (r ∷ rs) db h =
      let idle = after_rule_idle (ids 0) r db h.0 in
      rw (idle.0, idle.1) (loop_idle (λ n. ids (suc n)) rs db h.1)
