-- ===== src/Store/OneShot/History.antt =====
-- Histories of operations on the tables, and the one-shot rules in them.
use runtime_pulse.Prelude.{
  ◌&&◌, ℕ, ◌≤◌, String, ◌≡◌, refl, false, any, All-In, In, length, filter, ok, along_ok, ◌==◌,
  arith, inl, inr, Bool-cases, not, ◌-◌,
}
use runtime_pulse.Core.{Event, Rule, Continuation, Session, SessionState, TemplateEngine}
use runtime_pulse.Store.Tables.{Db, RuleRow, WatchRow, PayloadCodec, empty_db, rule_row}
use runtime_pulse.Store.Sql.{Sql, exec, run}
use runtime_pulse.Store.Ingest.{ingest, clashes, selects}
use runtime_pulse.Store.Continuations.{
  Verdict, claim_row, claim_rows, claim_continuation, result_row, set_result,
  update_continuation_result, reset_row, reset_rows, reset_running_continuations,
  manual_continuation, add_continuation, insert_manual_continuation,
}
use runtime_pulse.Store.Sessions.{upsert_session, set_state, set_session_state}
use runtime_pulse.Store.Rules.{prepared, insert_rule, add_rule, delete_rule, remove_rule}
use runtime_pulse.Store.Watches.{insert_watch, delete_watch, remove_watch}
use runtime_pulse.Store.Retention.{RetentionPolicy, continuation_expired, sweep}
use runtime_pulse.Store.Retention.Sweep.{run-sweep}
use runtime_pulse.Store.OneShot.{of_rule, FiresOnce, WellFormed}
use runtime_pulse.Store.OneShot.Ingestion.{ingest-WellFormed}
use runtime_pulse.Store.OneShot.Rows.{
  map-WellFormed, prune-WellFormed, disarm-WellFormed, arm-WellFormed, ask-WellFormed,
}

abbrev Leaves : {A : Type 0} → Sql A → Db → Db → Type 0
Leaves {A} m db db' = (a : A) × (run m db ≡ ok (a, db'))

-- One operation that succeeds. The ids that core.NewID draws for a rule or for a manual
-- continuation are supposed to name no continuation, or no rule, that is there.
pub data Step (db db' : Db) : Type 0 where
  ingested :
      (t : TemplateEngine) (codec : PayloadCodec) (ev : Event) (now : ℕ) (ids : ℕ → String)
      → Leaves (ingest t codec ev now ids) db db'
      → Step db db'
  claimed : (id : String) (now : ℕ) → Leaves (claim_continuation id now) db db' → Step db db'
  finished :
      (id : String) (v : Verdict) (now : ℕ)
      → Leaves (update_continuation_result id v now) db db'
      → Step db db'
  recovered : (now : ℕ) → Leaves (reset_running_continuations now) db db' → Step db db'
  asked :
      (session_id prompt : String) (now : ℕ) (id rule_id event_id : String)
      → any (λ r. r.id == rule_id) db.rules ≡ false
      → Leaves (insert_manual_continuation session_id prompt now id rule_id event_id) db db'
      → Step db db'
  armed :
      (r : Rule) (now : ℕ) (new_id : String)
      → any (of_rule (prepared r now new_id).id) db.continuations ≡ false
      → Leaves (add_rule r now new_id) db db'
      → Step db db'
  disarmed : (id : String) → Leaves (remove_rule id) db db' → Step db db'
  swept_by : (now : ℕ) (p : RetentionPolicy) → Leaves (sweep now p) db db' → Step db db'
  registered : (s : Session) (now : ℕ) → Leaves (exec (upsert_session s now)) db db' → Step db db'
  marked :
      (id : String) (st : SessionState) (now : ℕ)
      → Leaves (set_session_state id st now) db db'
      → Step db db'
  watched : (w : WatchRow) → Leaves (exec (insert_watch w)) db db' → Step db db'
  unwatched : (id : String) → Leaves (remove_watch id) db db' → Step db db'

pub data History : Db → Type 0 where
  fresh : History empty_db
  next : {db db' : Db} → History db → Step db db' → History db'

-- Only the rules and the continuations matter.
same-WellFormed :
    {db db' : Db}
    → db'.rules ≡ db.rules
    → db'.continuations ≡ db.continuations
    → WellFormed db
    → WellFormed db'
same-WellFormed {db} {db'} er ec w = record {
  flags = rw er w.flags;
  rule_ids = rw er w.rule_ids;
  rows = rw ec w.rows;
  one_shots = rw (er, ec) w.one_shots;
}

asked-WellFormed :
    (db db' : Db) (session_id prompt : String) (now : ℕ) (id rule_id event_id : String)
    (c : Continuation)
    → any (λ r. r.id == rule_id) db.rules ≡ false
    → run (insert_manual_continuation session_id prompt now id rule_id event_id) db ≡ ok (c, db')
    → WellFormed db
    → WellFormed db'
unfolding insert_manual_continuation add_continuation exec
asked-WellFormed db db' session_id prompt now id rule_id event_id c ruleless h w =
    let new = manual_continuation session_id prompt now id rule_id event_id in
    elim (Bool-cases (any (clashes new) db.continuations)) [
      | inl e ↦ absurd (cc (rw e at h))
      | inr e ↦ along_ok (λ _ d. WellFormed d) (rw e at h) (ask-WellFormed new e ruleless w)
    ]

armed-WellFormed :
    (db db' : Db) (r : Rule) (now : ℕ) (new_id : String) (made : Rule)
    → any (of_rule (prepared r now new_id).id) db.continuations ≡ false
    → run (add_rule r now new_id) db ≡ ok (made, db')
    → WellFormed db
    → WellFormed db'
unfolding add_rule insert_rule exec rule_row
armed-WellFormed db db' r now new_id made unused h w =
    let p = prepared r now new_id in
    elim (Bool-cases (any (λ s. s.id == p.id) db.rules)) [
      | inl e ↦ absurd (cc (rw e at h))
      | inr e ↦
          along_ok (λ _ d. WellFormed d) (rw e at h) (arm-WellFormed (rule_row p) e unused refl w)
    ]

pub Step-WellFormed : {db db' : Db} → Step db db' → WellFormed db → WellFormed db'
unfolding claim_continuation claim_rows update_continuation_result set_result
    reset_running_continuations reset_rows exec set_session_state set_state upsert_session
    insert_watch remove_watch delete_watch remove_rule delete_rule
Step-WellFormed {db} {db'} (ingested t codec ev now ids (res, h)) w =
    ingest-WellFormed t codec ev now ids db db' res w h
Step-WellFormed {db} (claimed id now (b, h)) w =
    along_ok (λ _ d. WellFormed d) h (map-WellFormed (claim_row id now) (λ c. ground arith) w)
Step-WellFormed (finished id v now (b, h)) w =
    along_ok (λ _ d. WellFormed d) h (map-WellFormed (result_row id v now) (λ c. ground arith) w)
Step-WellFormed (recovered now (n, h)) w =
    along_ok (λ _ d. WellFormed d) h (map-WellFormed (reset_row now) (λ c. ground arith) w)
Step-WellFormed {db} {db'} (asked session_id prompt now id rule_id event_id ruleless (c, h)) w =
    asked-WellFormed db db' session_id prompt now id rule_id event_id c ruleless h w
Step-WellFormed {db} {db'} (armed r now new_id unused (made, h)) w =
    armed-WellFormed db db' r now new_id made unused h w
Step-WellFormed (disarmed id (u, h)) w = along_ok (λ _ d. WellFormed d) h (disarm-WellFormed _ w)
Step-WellFormed {db} (swept_by now p (res, h)) w =
    along_ok (λ _ d. WellFormed d) (rw (run-sweep now p db) at h)
      (same-WellFormed refl refl
        (prune-WellFormed (λ c. not (continuation_expired (now - p.continuation_age) c)) w))
Step-WellFormed (registered s now (u, h)) w =
    along_ok (λ _ d. WellFormed d) h (same-WellFormed refl refl w)
Step-WellFormed (marked id st now (u, h)) w =
    along_ok (λ _ d. WellFormed d) h (same-WellFormed refl refl w)
Step-WellFormed (watched x (u, h)) w =
    along_ok (λ _ d. WellFormed d) h (same-WellFormed (ground arith) (ground arith) w)
Step-WellFormed (unwatched id (u, h)) w =
    along_ok (λ _ d. WellFormed d) h (same-WellFormed refl refl w)

-- In every history the tables keep their constraints and the one-shot rules fire once.
pub History-WellFormed : {db : Db} → History db → WellFormed db
History-WellFormed fresh = record { flags = tt; rule_ids = tt; rows = tt; one_shots = tt }
History-WellFormed (next h s) = Step-WellFormed s (History-WellFormed h)

-- Whatever operations succeed after the database was made, in whatever order, a one-shot rule has
-- at most one continuation, and no event at any time selects a one-shot rule that has one. The ids
-- that are drawn for new rules and manual continuations are supposed to be new.
pub one_shot_fires_once :
    (db : Db) (r : RuleRow) (ev : Event) (now : ℕ)
    → History db
    → In r db.rules
    → r.one_shot ≡ 1
    → (length (filter (of_rule r.id) db.continuations) ≤ 1)
      × ((any (of_rule r.id) db.continuations && selects ev now r) ≡ false)
unfolding selects
one_shot_fires_once db r ev now h i one =
    let w : WellFormed db = History-WellFormed h in
    let once = All-In (FiresOnce db.continuations) r db.rules w.one_shots i one in
    (
      once.1,
      elim (Bool-cases (any (of_rule r.id) db.continuations)) [
        | inl fired ↦ ground (arith, once.0 fired)
        | inr idle ↦ rw idle refl
      ],
    )
