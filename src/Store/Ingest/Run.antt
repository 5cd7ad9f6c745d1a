-- ===== src/Store/Ingest/Run.antt =====
-- What the outbox transaction computes when no statement fails by itself: the connection and the
-- errors are gone, and the loop is a plain recursion on the rules that match.
use runtime_pulse.Prelude.{
  ℕ, suc, String, ◌≡◌, refl, ap, ◌⊎◌, true, false, inl, inr, List, [], ◌∷◌, ◌++◌, map, Result, ok,
  err, any, filter, ◌==◌, if◌then◌else◌, arith, Bool-cases, Result-cases,
}
use runtime_pulse.Core.{Event, Rule, Continuation, TemplateEngine}
use runtime_pulse.Store.Tables.{Db, EventRow, PayloadCodec, scan_rule}
use runtime_pulse.Store.Sql.{healthy, exec, run, outcome}
use runtime_pulse.Store.Sql.Faults.{transaction_run, transaction_fails}
use runtime_pulse.Store.Ingest.{
  IngestResult, insert_event_row, insert_event, selects, match_rules, new_continuation, clashes,
  insert_continuation, consume_row, consume_rule, inserted, ingest_rule, ingest_rules, ingest,
}

-- One round of the loop.
unfoldable pub after_rule : Rule → Continuation → Db → Db
after_rule r c db = if any (clashes c) db.continuations then db else record db {
  continuations = db.continuations ++ c ∷ [];
  rules = if r.one_shot then map (consume_row r.id) db.rules else db.rules;
}

abbrev pub made_for : Continuation → Db → List Continuation
made_for c db = if any (clashes c) db.continuations then [] else c ∷ []

ingest_rule_run :
    (t : TemplateEngine) (ev : Event) (now : ℕ) (id : String) (r : Rule) (db : Db)
    → let c = new_continuation t ev now id r in
      ingest_rule t ev now id r (healthy db) ≡ (ok (made_for c db), healthy (after_rule r c db))
unfolding ingest_rule insert_continuation inserted consume_rule exec after_rule
ingest_rule_run t ev now id r db = ground arith

module _ (t : TemplateEngine) (ev : Event) (now : ℕ) where
  unfoldable pub loop_db : (ℕ → String) → List Rule → Db → Db
  loop_db ids [] db = db
  loop_db ids (r ∷ rs) db =
      loop_db (λ n. ids (suc n)) rs (after_rule r (new_continuation t ev now (ids 0) r) db)

  unfoldable pub loop_made : (ℕ → String) → List Rule → Db → List Continuation
  loop_made ids [] db = []
  loop_made ids (r ∷ rs) db =
      let c = new_continuation t ev now (ids 0) r in
      made_for c db ++ loop_made (λ n. ids (suc n)) rs (after_rule r c db)

  ingest_rules_run :
      (ids : ℕ → String) (rs : List Rule) (db : Db)
      → ingest_rules t ev now ids rs (healthy db)
        ≡ (ok (loop_made ids rs db), healthy (loop_db ids rs db))
  unfolding ingest_rules loop_db loop_made
  ingest_rules_run ids [] db = refl
  ingest_rules_run ids (r ∷ rs) db =
      let c = new_continuation t ev now (ids 0) r in
      rw (ingest_rule_run t ev now (ids 0) r db)
        (rw (ingest_rules_run (λ n. ids (suc n)) rs (after_rule r c db)))

-- The tables after the insertion of the event.
abbrev pub with_event : EventRow → Db → Db
with_event e db = record db {
  events = if any (λ r. r.id == e.id) db.events then db.events else db.events ++ e ∷ [];
}

abbrev pub event_row : Event → String → EventRow
event_row ev payload = record {
  id = ev.id;
  type = ev.type;
  source = ev.source;
  payload = payload;
  created_at = ev.timestamp;
}

abbrev pub matched : Event → ℕ → Db → List Rule
matched ev now db = map scan_rule (filter (selects ev now) db.rules)

insert_event_run :
    (codec : PayloadCodec) (ev : Event) (payload : String) (db : Db)
    → (ev.id == "") ≡ false
    → codec.marshal ev.payload ≡ ok payload
    → insert_event codec ev (healthy db) ≡ (ok tt, healthy (with_event (event_row ev payload) db))
unfolding insert_event insert_event_row exec
insert_event_run codec ev payload db has_id encoded =
    rw (has_id, encoded)
      (elim (Bool-cases (any (λ r. r.id == ev.id) db.events)) [ inl e ↦ rw e | inr e ↦ rw e ])

module _ (t : TemplateEngine) (codec : PayloadCodec) (ev : Event) (now : ℕ) (ids : ℕ → String) where
  -- The tables when the loop begins, and when it has ended.
  abbrev pub loop_start : String → Db → Db
  loop_start payload db = with_event (event_row ev payload) db

  abbrev pub ingested : String → Db → Db
  ingested payload db = loop_db t ev now ids (matched ev now db) (loop_start payload db)

  abbrev pub produced : String → Db → IngestResult
  produced payload db = record {
    event = ev;
    continuations = loop_made t ev now ids (matched ev now db) (loop_start payload db);
  }

  -- With an id and a payload that can be encoded, the ingestion succeeds.
  pub ingest_run :
      (payload : String) (db : Db)
      → (ev.id == "") ≡ false
      → codec.marshal ev.payload ≡ ok payload
      → ingest t codec ev now ids (healthy db)
        ≡ (ok (produced payload db), healthy (ingested payload db))
  unfolding ingest exec match_rules
  ingest_run payload db has_id encoded = transaction_run _ db _ _ (
      rw (insert_event_run codec ev payload db has_id encoded)
        (rw (ingest_rules_run t ev now ids (matched ev now db) (loop_start payload db))))

  -- Any other event is refused, and nothing changes.
  pub ingest_refused :
      (db : Db) (e : String)
      → ((ev.id == "") ≡ true) ⊎ (((ev.id == "") ≡ false) × (codec.marshal ev.payload ≡ err e))
      → (e' : String) × (ingest t codec ev now ids (healthy db) ≡ (err e', healthy db))
  unfolding ingest insert_event
  ingest_refused db e (inl no_id) =
      ("store: event id is required", transaction_fails _ db _ db (rw no_id))
  ingest_refused db e (inr (has_id, bad)) = (e, transaction_fails _ db _ db (rw (has_id, bad)))

  -- An ingestion on a healthy connection is the recursion, or is refused.
  pub ingest_cases :
      (db : Db)
      → ((payload : String) × (ingest t codec ev now ids (healthy db)
            ≡ (ok (produced payload db), healthy (ingested payload db))))
        ⊎ ((e : String) × (ingest t codec ev now ids (healthy db) ≡ (err e, healthy db)))
  ingest_cases db = elim (Bool-cases (ev.id == "")) [
    | inl no_id ↦ inr (ingest_refused db "" (inl no_id))
    | inr has_id ↦ elim (Result-cases (codec.marshal ev.payload)) [
      | inl (e, bad) ↦ inr (ingest_refused db e (inr (has_id, bad)))
      | inr (payload, encoded) ↦ inl (payload, ingest_run payload db has_id encoded)
    ]
  ]

  -- So a successful ingestion had both, and is the recursion above.
  pub ingest_ok :
      (db : Db) (res : IngestResult) (db' : Db)
      → run (ingest t codec ev now ids) db ≡ ok (res, db')
      → (payload : String) × ((ev.id == "") ≡ false)
        × (codec.marshal ev.payload ≡ ok payload)
        × (res ≡ produced payload db)
        × (db' ≡ ingested payload db)
  ingest_ok db res db' h = elim (Bool-cases (ev.id == "")) [
    | inl no_id ↦ absurd (cc (ap outcome (ingest_refused db "" (inl no_id)).1))
    | inr has_id ↦ elim (Result-cases (codec.marshal ev.payload)) [
      | inl (e, bad) ↦ absurd (cc (ap outcome (ingest_refused db e (inr (has_id, bad))).1))
      | inr (payload, encoded) ↦
          let e : ◌≡◌ {A = Result (IngestResult × Db)}
              (ok (produced payload db, ingested payload db)) (ok (res, db')) =
            rw (ingest_run payload db has_id encoded) at h in
          (payload, has_id, encoded, cc, cc)
    ]
  ]
