-- ===== src/Store/Ingest/Outbox.antt =====
-- What the outbox transaction promises of one event.
use runtime_pulse.Prelude.{
  ℕ, ◌≤◌, String, ◌≡◌, refl, ap, true, List, [], ◌∷◌, ◌++◌, map, All, In, All-map, any, any-append,
  ok, along_ok, ◌==◌, eq_refl, arith, inl, inr, Bool-cases, filter,
}
use runtime_pulse.Core.{Event, Rule, TemplateEngine, matches, active}
use runtime_pulse.Store.Tables.{Db, RuleRow, PayloadCodec, scan_rule}
use runtime_pulse.Store.Sql.{run}
use runtime_pulse.Store.Ingest.{IngestResult, ingest, selects}
use runtime_pulse.Store.Ingest.Run.{
  with_event, event_row, matched, ingest_ok, ingest_run, loop_db, ingested, produced, loop_start,
}
use runtime_pulse.Store.Ingest.Loop.{
  IsFor, Fresh, of_pair, SameElsewhere, loop-SameElsewhere, loop-continuations, loop_made-IsFor,
  loop_covers, loop_idle,
}
use runtime_pulse.Store.Ingest.Selection.{
  IsFlagged, selects-matches, selects_earlier, selects-consume_row, loop-rules,
}

-- The rules that the engine should fire: those of the table that match the event and are active.
abbrev pub Fires : Event → ℕ → Rule → Type 0
Fires ev now r = (matches r.selector ev ≡ true) × (active r now ≡ true)

-- One event, delivered.
pub record Delivered (ev : Event) (now : ℕ) (db : Db) (res : IngestResult) (db' : Db) : Type 0 where
  pub recorded : any (λ e. e.id == ev.id) db'.events ≡ true
  pub appended : db'.continuations ≡ db.continuations ++ res.continuations
  pub none_lost :
      All
        (λ row. Fires ev now (scan_rule row) → any (of_pair row.id ev.id) db'.continuations ≡ true)
        db.rules
  pub none_made_up :
      All
        (λ c.
          (row : RuleRow) × In row db.rules
          × Fires ev now (scan_rule row)
          × IsFor ev (scan_rule row) c)
        res.continuations
  pub sessions : db'.sessions ≡ db.sessions
  pub watches : db'.watches ≡ db.watches

recorded-with_event :
    (ev : Event) (payload : String) (db : Db)
    → any (λ e. e.id == ev.id) (with_event (event_row ev payload) db).events ≡ true
recorded-with_event ev payload db = elim (Bool-cases (any (λ e. e.id == ev.id) db.events)) [
  | inl e ↦ rw e e
  | inr e ↦
      rw e (
        rw
          (any-append (λ r. r.id == ev.id) db.events (event_row ev payload ∷ []), e, eq_refl ev.id))
]

module _ (ev : Event) (now : ℕ) where
  -- A rule that was matched is in the table, and fires.
  matched-Fires :
      (l : List RuleRow) (r : Rule)
      → All IsFlagged l
      → In r (map scan_rule (filter (selects ev now) l))
      → (row : RuleRow) × In row l × (r ≡ scan_rule row) × Fires ev now (scan_rule row)
  matched-Fires [] r f h = absurd h
  matched-Fires (row ∷ l) r f h = elim (Bool-cases (selects ev now row)) [
    | inl e ↦ elim (rw e at h) [
      | inl q ↦ (
        row,
        inl refl,
        q,
        (
          ground (arith, selects-matches ev now row f.0, e),
          ground (arith, selects-matches ev now row f.0, e),
        ),
      )
      | inr i ↦ let (x, j, q, p) = matched-Fires l r f.1 i in (x, inr j, q, p)
    ]
    | inr e ↦ let (x, j, q, p) = matched-Fires l r f.1 (rw e at h) in (x, inr j, q, p)
  ]

  -- What holds of every matched rule holds of every row that fires.
  rows_of_matched :
      (P : Rule → Type 0) (l : List RuleRow)
      → All IsFlagged l
      → All P (map scan_rule (filter (selects ev now) l))
      → All (λ row. Fires ev now (scan_rule row) → P (scan_rule row)) l
  rows_of_matched P [] f h = tt
  rows_of_matched P (row ∷ l) f h = elim (Bool-cases (selects ev now row)) [
    | inl e ↦
        let h' : P (scan_rule row) × All P (map scan_rule (filter (selects ev now) l)) =
          rw e at h in
        (λ _. h'.0, rows_of_matched P l f.1 h'.1)
    | inr e ↦ (
      λ p. absurd (ground (arith, selects-matches ev now row f.0, e, p)),
      rows_of_matched P l f.1 (rw e at h),
    )
  ]

  -- The same, between a matched rule and a row that is selected.
  rows_of_selected :
      (P : Rule → Type 0) (l : List RuleRow)
      → All P (map scan_rule (filter (selects ev now) l))
      → All (λ row. selects ev now row ≡ true → P (scan_rule row)) l
  rows_of_selected P [] h = tt
  rows_of_selected P (row ∷ l) h = elim (Bool-cases (selects ev now row)) [
    | inl e ↦
        let h' : P (scan_rule row) × All P (map scan_rule (filter (selects ev now) l)) =
          rw e at h in
        (λ _. h'.0, rows_of_selected P l h'.1)
    | inr e ↦ (λ p. absurd (cc (e, p)), rows_of_selected P l (rw e at h))
  ]

  selected_of_rows :
      (P : Rule → Type 0) (l : List RuleRow)
      → All (λ row. selects ev now row ≡ true → P (scan_rule row)) l
      → All P (map scan_rule (filter (selects ev now) l))
  selected_of_rows P [] h = tt
  selected_of_rows P (row ∷ l) h = elim (Bool-cases (selects ev now row)) [
    | inl e ↦ rw e (h.0 e, selected_of_rows P l h.1)
    | inr e ↦ rw e (selected_of_rows P l h.1)
  ]

module _ (t : TemplateEngine) (codec : PayloadCodec) (ev : Event) (now : ℕ) (ids : ℕ → String)
    (db : Db) where
  ingested-Delivered :
      (payload : String)
      → Fresh ids db
      → All IsFlagged db.rules
      → Delivered ev now db
          (produced t codec ev now ids payload db)
          (ingested t codec ev now ids payload db)
  unfolding scan_rule
  ingested-Delivered payload f flags =
      let start = loop_start t codec ev now ids payload db in
      let rs = matched ev now db in
      let same : SameElsewhere (loop_db t ev now ids rs start) start =
        loop-SameElsewhere t ev now ids rs start in
      let fresh : Fresh ids start = record { absent = f.absent; distinct = f.distinct } in
      record {
        recorded = rw same.events (recorded-with_event ev payload db);
        appended = loop-continuations t ev now ids rs start;
        none_lost =
            rows_of_matched ev now
              (λ r. any (of_pair r.id ev.id) (loop_db t ev now ids rs start).continuations ≡ true)
              db.rules flags (loop_covers t ev now ids rs start fresh);
        none_made_up =
            All-map _
              (λ c h.
                let (row, i, q, p) = matched-Fires ev now db.rules h.0 flags h.1 in
                (row, i, p, rw q at h.2))
              (loop_made-IsFor t ev now ids rs start);
        sessions = same.sessions;
        watches = same.watches;
      }

  -- A successful ingestion records the event, adds the continuations that it returns after those of
  -- the table, and leaves sessions and watches alone. Every rule of the table that matches the
  -- event and is active then has a continuation for the event, and every continuation that was
  -- added is for such a rule, with its session and label. This supposes that the ids that are drawn
  -- are distinct and new to the table, and that the flags of the rules are 0 or 1.
  pub ingest-Delivered :
      (res : IngestResult) (db' : Db)
      → Fresh ids db
      → All IsFlagged db.rules
      → run (ingest t codec ev now ids) db ≡ ok (res, db')
      → Delivered ev now db res db'
  ingest-Delivered res db' f flags h =
      let (payload, has_id, encoded, er, ed) = ingest_ok t codec ev now ids db res db' h in
      along_ok (Delivered ev now db) (ap ok (ground (arith, er, ed)))
        (ingested-Delivered payload f flags)

  -- The event is in the table afterwards.
  pub ingest_records :
      (res : IngestResult) (db' : Db)
      → run (ingest t codec ev now ids) db ≡ ok (res, db')
      → (res.event ≡ ev) × (any (λ e. e.id == ev.id) db'.events ≡ true)
  ingest_records res db' h =
      let (payload, has_id, encoded, er, ed) = ingest_ok t codec ev now ids db res db' h in
      let start = loop_start t codec ev now ids payload db in
      (
        rw er refl,
        rw ed (
            rw (loop-SameElsewhere t ev now ids (matched ev now db) start).events
              (recorded-with_event ev payload db)),
      )

  -- The continuations are those of before and the new ones; the sessions stay.
  pub ingest_appends :
      (res : IngestResult) (db' : Db)
      → run (ingest t codec ev now ids) db ≡ ok (res, db')
      → (db'.continuations ≡ db.continuations ++ res.continuations) × (db'.sessions ≡ db.sessions)
  ingest_appends res db' h =
      let (payload, has_id, encoded, er, ed) = ingest_ok t codec ev now ids db res db' h in
      let start = loop_start t codec ev now ids payload db in
      let rs = matched ev now db in
      (
        rw ed (rw er (loop-continuations t ev now ids rs start)),
        rw ed (loop-SameElsewhere t ev now ids rs start).sessions,
      )

  still_matched :
      (later : ℕ) (payload : String)
      → now ≤ later
      → Fresh ids db
      → let after = ingested t codec ev now ids payload db in
        All (λ r. any (of_pair r.id ev.id) after.continuations ≡ true) (matched ev later after)
  unfolding scan_rule
  still_matched later payload le f =
      let start = loop_start t codec ev now ids payload db in
      let rs = matched ev now db in
      let after = loop_db t ev now ids rs start in
      let fresh : Fresh ids start = record { absent = f.absent; distinct = f.distinct } in
      let Covered = λ (r : Rule). any (of_pair r.id ev.id) after.continuations ≡ true in
      selected_of_rows ev later Covered after.rules (
        loop-rules (λ row. selects ev later row ≡ true → Covered (scan_rule row))
          (λ id row h e. let q = selects-consume_row ev later id row e in rw q (h (rw q at e))) t ev
          now ids rs start
          (All-map db.rules (λ row h e. h (selects_earlier ev now later row le e))
            (rows_of_selected ev now Covered db.rules (loop_covers t ev now ids rs start fresh))))

  with_event_idle :
      (payload : String) (d : Db)
      → any (λ e. e.id == ev.id) d.events ≡ true
      → with_event (event_row ev payload) d ≡ d
  with_event_idle payload d h = rw h

  -- The same event again, at that time or later, changes nothing and gives no continuation. This
  -- supposes that the ids of the first time were distinct and new to the table.
  pub ingest_again :
      (res : IngestResult) (db' : Db) (later : ℕ) (more_ids : ℕ → String)
      → Fresh ids db
      → now ≤ later
      → run (ingest t codec ev now ids) db ≡ ok (res, db')
      → run (ingest t codec ev later more_ids) db'
        ≡ ok (record { event = ev; continuations = [] }, db')
  ingest_again res db' later more_ids f le h =
      let (payload, has_id, encoded, er, ed) = ingest_ok t codec ev now ids db res db' h in
      let after = ingested t codec ev now ids payload db in
      let start = loop_start t codec ev now ids payload db in
      let there : any (λ e. e.id == ev.id) after.events ≡ true =
        rw (loop-SameElsewhere t ev now ids (matched ev now db) start).events
          (recorded-with_event ev payload db) in
      let idle =
        loop_idle t ev later more_ids (matched ev later after) after
          (still_matched later payload le f) in
      rw (
        ed,
        ingest_run t codec ev later more_ids payload after has_id encoded,
        with_event_idle payload after there,
        idle.0,
        idle.1,
      )
