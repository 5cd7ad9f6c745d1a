-- ===== src/Store/Ingest.antt =====
-- store/ingest.go and the event insertion of store/events.go: the outbox transaction.
pub mod Atomic
pub mod Run
pub mod Loop
pub mod Selection
pub mod Outbox
pub mod Budget
use runtime_pulse.Prelude.{
  ℕ, suc, String, Bool, true, false, ◌&&◌, ◌||◌, Option, none, some, List, [], ◌∷◌, ◌++◌, map,
  Result, ok, err, ltb, nat_eq, any, filter, ◌==◌, if◌then◌else◌, str_append,
}
use runtime_pulse.Core.{
  Event, Rule, Continuation, ContinuationState, pending, failed, TemplateEngine, render_prompt,
}
use runtime_pulse.Store.Tables.{Db, EventRow, RuleRow, PayloadCodec, Statement, scan_rule}
use runtime_pulse.Store.Sql.{Sql, pure, fail, lift, exec, ◌>>=◌, ◌>>◌, transaction}

pub record IngestResult : Type 0 where
  pub event : Event
  pub continuations : List Continuation

-- INSERT OR IGNORE INTO events: a row with the id of another is not added.
unfoldable pub insert_event_row : EventRow → Statement (Unit {0})
insert_event_row e db = ok (
  tt,
  if any (λ r. r.id == e.id) db.events then db else record db { events = db.events ++ e ∷ [] },
)

-- insertEventTx
unfoldable pub insert_event : PayloadCodec → Event → Sql (Unit {0})
insert_event codec ev = if ev.id == "" then fail "store: event id is required" else do
  payload ← lift (codec.marshal ev.payload)
  exec (
      insert_event_row (record {
        id = ev.id;
        type = ev.type;
        source = ev.source;
        payload = payload;
        created_at = ev.timestamp;
      }))

-- expires_at IS NULL OR expires_at > ?
unfoldable pub unexpired : Option ℕ → ℕ → Bool
unexpired none now = true
unexpired (some t) now = ltb now t

-- The WHERE clause of the query for the rules that match.
unfoldable pub selects : Event → ℕ → RuleRow → Bool
unfolding unexpired
selects ev now r =
    r.event_type == ev.type
    && (r.event_source == "" || r.event_source == ev.source)
    && nat_eq r.consumed 0
    && unexpired r.expires_at now

unfoldable pub match_rules : Event → ℕ → Statement (List Rule)
unfolding selects
match_rules ev now db = ok (map scan_rule (filter (selects ev now) db.rules), db)

-- What rendering makes of the continuation: its prompt, or a failure that says why there is none.
unfoldable pub fill_prompt : Continuation → Result String → Continuation
fill_prompt c (ok prompt) = record c { prompt = prompt }
fill_prompt c (err e) = record c {
  state = failed;
  output_summary = str_append "prompt template error: " e;
}

-- The continuation that the loop makes for one rule.
unfoldable pub new_continuation : TemplateEngine → Event → ℕ → String → Rule → Continuation
unfolding fill_prompt
new_continuation t ev now id r = fill_prompt blank (render_prompt t r ev)
  where
    blank : Continuation
    blank = record {
      id = id;
      rule_id = r.id;
      event_id = ev.id;
      session_id = r.session_id;
      prompt = "";
      label = r.label;
      state = pending;
      command = "";
      exit_code = none;
      output_summary = "";
      created_at = now;
      updated_at = now;
    }

-- Rows that a UNIQUE constraint of the table keeps apart.
unfoldable pub clashes : Continuation → Continuation → Bool
clashes c d = d.id == c.id || (d.rule_id == c.rule_id && d.event_id == c.event_id)

-- INSERT OR IGNORE INTO continuations, with whether a row was added.
unfoldable pub insert_continuation : Continuation → Statement Bool
unfolding clashes
insert_continuation c db =
    if any (clashes c) db.continuations
    then ok (false, db)
    else ok (true, record db { continuations = db.continuations ++ c ∷ [] })

-- UPDATE rules SET consumed = 1 WHERE id = ?
abbrev pub consume_row : String → RuleRow → RuleRow
consume_row id r = if r.id == id then record r { consumed = 1 } else r

unfoldable pub consume_rule : String → Statement (Unit {0})
consume_rule id db = ok (tt, record db { rules = map (consume_row id) db.rules })

-- After the insertion: nothing, if the rule has a continuation for the event already.
unfoldable pub inserted : Rule → Continuation → Bool → Sql (List Continuation)
inserted r c false = pure []
inserted r c true = do (if r.one_shot then exec (consume_rule r.id) else pure tt); pure (c ∷ [])

-- The body of the loop.
unfoldable pub ingest_rule : TemplateEngine → Event → ℕ → String → Rule → Sql (List Continuation)
ingest_rule t ev now id r = do
  let c = new_continuation t ev now id r
  added ← exec (insert_continuation c)
  inserted r c added

-- The loop; `ids` are the ids that core.NewID("cont") returns, in turn.
unfoldable pub ingest_rules :
    TemplateEngine → Event → ℕ → (ℕ → String) → List Rule → Sql (List Continuation)
ingest_rules t ev now ids [] = pure []
ingest_rules t ev now ids (r ∷ rs) = do
  made ← ingest_rule t ev now (ids 0) r
  rest ← ingest_rules t ev now (λ n. ids (suc n)) rs
  pure (made ++ rest)

-- Store.Ingest. On an error Go also returns the part of the result that it has made; every caller
-- drops it.
unfoldable pub ingest : TemplateEngine → PayloadCodec → Event → ℕ → (ℕ → String) → Sql IngestResult
ingest t codec ev now ids = transaction (do
  insert_event codec ev
  matched ← exec (match_rules ev now)
  made ← ingest_rules t ev now ids matched
  pure (record { event = ev; continuations = made }))
